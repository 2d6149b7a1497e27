-- ===== src/Upstream/Pageant/Windows.antt =====
-- Which process is taken for Pageant.
use ssh_agent_bridge.Base.{
  ℕ, zero, suc, ◌+◌, ◌/◌, ◌≤◌, ◌<◌, ◌≡◌, ◌≢◌, refl, subst, ap, append-nil, true, false, List, [],
  ◌∷◌, ◌++◌, Option, none, some, All, arith, if_lem, ◌==◌,
}
use ssh_agent_bridge.Util.{WideString}
use ssh_agent_bridge.Upstream.Pageant.{
  Query, named, too_small, no_name, Queried, goes_on, query_image_name, after_query, Window,
  filter_window_process, find_window, get_pageant_window_handle,
}

-- A buffer larger than `n` is not too small.
abbrev pub FitsAbove : (ℕ → Query) → ℕ → Type 0
FitsAbove query n = (size : ℕ) → n < size → query size ≢ too_small

after_query-ends :
    (q : Query) (later : Queried)
    → (q ≡ too_small → later ≢ goes_on)
    → after_query q later ≢ goes_on
unfolding after_query
after_query-ends (named name) later h = λ e. cc
after_query-ends too_small later h = h refl
after_query-ends no_name later h = λ e. cc

-- The loop that queries an image name ends: if a buffer of more than `n` units is never too small,
-- then from a buffer of at least 2 units on it ends within as many rounds as the first size lacks to
-- exceed `n`, and one more.
pub query_image_name-ends :
    (query : ℕ → Query) (n : ℕ)
    → FitsAbove query n
    → (rounds size : ℕ) → 2 ≤ size
    → n < rounds + size
    → query_image_name query (suc rounds) size ≢ goes_on
unfolding query_image_name
query_image_name-ends query n fits zero size big h =
    after_query-ends (query size) goes_on (λ e. absurd (fits size (omega (arith, h)) e))
query_image_name-ends query n fits (suc rounds) size big h = after_query-ends (query size) _ (λ e.
    query_image_name-ends query n fits rounds (size + size / 2) (omega (arith, big))
      (omega (arith, big, h)))

module _ (towlower : ℕ → ℕ) (own_process_id : ℕ) (process_name : WideString) where
  abbrev pub Refused : Window → Type 0
  Refused w = filter_window_process towlower own_process_id process_name w ≡ false

  -- The first window of the list that is not refused, or none where all are.
  pub data Searched (ws : List Window) : Option Window → Type 0 where
    first :
        (before after : List Window) (w : Window)
        → ws ≡ before ++ w ∷ after
        → All Refused before
        → filter_window_process towlower own_process_id process_name w ≡ true
        → w.process_id ≢ own_process_id
        → Searched ws (some w)
    nothing : All Refused ws → Searched ws none

  not_own :
      (w : Window)
      → filter_window_process towlower own_process_id process_name w ≡ true
      → w.process_id ≢ own_process_id
  unfolding filter_window_process
  not_own w e = λ same.
      let t : (own_process_id == w.process_id) ≡ true = ground (arith, same) in
      let f = rw t at e in cc

  find_window-Searched :
      (ws more : List Window) (k : Option Window)
      → Searched more k
      → Searched (ws ++ more) (find_window towlower own_process_id process_name ws k)
  unfolding find_window
  find_window-Searched [] more k h = h
  find_window-Searched (w ∷ ws) more k h =
      if_lem (Searched (w ∷ (ws ++ more)))
        (filter_window_process towlower own_process_id process_name w) _ _
        (λ e. first [] (ws ++ more) w refl tt e (not_own w e))
        (λ e. later w (ws ++ more) e (find_window-Searched ws more k h))
    where
      later :
          (w : Window) (ws : List Window) {o : Option Window}
          → Refused w
          → Searched ws o
          → Searched (w ∷ ws) o
      later w ws e (first before after v s r f n) =
          first (w ∷ before) after v (ap (◌∷◌ w) s) (e, r) f n
      later w ws e (nothing r) = nothing (e, r)

  -- The window that is taken for Pageant is the first one that passes the test of its process, the
  -- top-level windows before the message-only ones, and never one of this process itself; none is
  -- taken only if all fail the test.
  pub get_pageant_window_handle-Searched :
      (top message_only : List Window)
      → Searched
          (top ++ message_only)
          (get_pageant_window_handle towlower own_process_id process_name top message_only)
  unfolding get_pageant_window_handle
  get_pageant_window_handle-Searched top message_only = find_window-Searched top message_only _ (
      subst (λ ws. Searched ws (find_window towlower own_process_id process_name message_only none))
        (append-nil message_only) (find_window-Searched message_only [] none (nothing tt)))
