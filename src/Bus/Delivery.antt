-- ===== src/Bus/Delivery.antt =====
-- What a consumer that polls with its cursor receives.
use ngx_lua_cpp.Prelude.{
  ℕ, suc, ◌≤◌, ◌<◌, ◌^◌, ◌≡◌, refl, ap, sym, ◌∙◌, true, false, List, [], ◌∷◌, ◌++◌, append_assoc,
  append-nil, ltb, lt→ltb, ltb→lt, All, arith, if◌then◌else◌, inl, inr, Bool-cases, Option-cases,
}
use ngx_lua_cpp.Prelude.Order.{bytes_ord}
use ngx_lua_cpp.Prelude.Text.{Bytes}
use ngx_lua_cpp.Prelude.Map.{lookup}
use ngx_lua_cpp.Prelude.Double.{Double, IsDouble}
use ngx_lua_cpp.Bus.{Event, EventBus, queue, poll, poll_loop, events}
use ngx_lua_cpp.Bus.Valid.{Ids, Ids-le}

module _ {D : Type 0} (d : Double D) where
  -- The events of a queue whose identifier is above the cursor.
  abbrev pub newer : D → List (Event D) → List (Event D)
  newer last [] = []
  newer last (e ∷ q) = if d.lt last e.0 then e ∷ newer last q else newer last q

  -- The identifier of the last event, or the cursor where there is none.
  abbrev pub last_id_of : D → List (Event D) → D
  last_id_of next [] = next
  last_id_of next (e ∷ q) = last_id_of e.0 q

  poll_loop-newer :
      (last : D) (q out : List (Event D)) (next : D)
      → poll_loop d last q out next ≡ (out ++ newer last q, last_id_of next (newer last q))
  unfolding poll_loop
  poll_loop-newer last [] out next = rw (append-nil out)
  poll_loop-newer last (e ∷ q) out next = elim (Bool-cases (d.lt last e.0)) [
    | inl found ↦ rw (found, poll_loop-newer last q (out ++ e ∷ []) e.0, append_assoc out (e ∷ []))
    | inr skipped ↦ rw (skipped, poll_loop-newer last q out next)
  ]

  -- `events` returns, in order of publication, exactly the queued events above the cursor, and moves
  -- the cursor to the last of them; an absent topic has no events.
  pub events_lem :
      (topic : Bytes) (last : D) (b : EventBus D)
      → events d topic last b
        ≡ (newer last (queue topic b), last_id_of last (newer last (queue topic b)))
  unfolding events
  events_lem topic last b = elim (Option-cases (lookup topic b.topics)) [
    | inl absent ↦ rw (absent, events, poll, queue)
    | inr (q, found) ↦ rw (found, events, poll, queue) (poll_loop-newer last q [] last)
  ]

  module _ (laws : IsDouble d) where
    pub lt_true :
        (l j : ℕ) (e : Event D)
        → e.0 ≡ d.of_nat j
        → l < j
        → j ≤ 2 ^ 53
        → d.lt (d.of_nat l) e.0 ≡ true
    lt_true l j e at p top = rw (at, laws.lt_exact l j (omega arith) top) (lt→ltb l j p)

    lt_false :
        (l j : ℕ) (e : Event D)
        → e.0 ≡ d.of_nat j
        → j ≤ l
        → l ≤ 2 ^ 53
        → d.lt (d.of_nat l) e.0 ≡ false
    lt_false l j e at p top = rw (at, laws.lt_exact l j top (omega arith)) (ground arith)

    newer_all :
        (l i n : ℕ) (q : List (Event D))
        → l ≤ i
        → n ≤ 2 ^ 53
        → Ids d (suc i) n q
        → newer (d.of_nat l) q ≡ q
    newer_all l i n [] p top h = refl
    newer_all l i n (e ∷ q) p top (j, at, le, r) =
        let below = Ids-le d (suc j) n q r in
        rw (lt_true l j e at (omega arith) (omega arith))
          (ap (◌∷◌ e) (newer_all l j n q (omega arith) top r))

    -- A poll moves the cursor to a published identifier that no queued event exceeds.
    pub cursor_lem :
        (l lo n : ℕ) (q : List (Event D))
        → l < n
        → n ≤ 2 ^ 53
        → Ids d lo n q
        → (m : ℕ) × (last_id_of (d.of_nat l) (newer (d.of_nat l) q) ≡ d.of_nat m)
          × (l ≤ m)
          × (m < n)
          × All (λ e. d.lt (d.of_nat m) e.0 ≡ false) q
    cursor_lem l lo n [] p top h = (l, refl, omega arith, p, tt)
    cursor_lem l lo n (e ∷ q) p top (i, at, le, r) = elim (Bool-cases (ltb l i)) [
      | inl above ↦
          let below = Ids-le d (suc i) n q r in
          let l<i : l < i = ltb→lt l i above in
          let (m, cur, i≤m, m<n, seen) = cursor_lem i (suc i) n q (omega arith) top r in
          let same_tail : newer (d.of_nat l) q ≡ newer (d.of_nat i) q =
            newer_all l i n q (omega arith) top r ∙ sym (newer_all i i n q (omega arith) top r) in
          (
            m,
            rw (lt_true l i e at l<i (omega arith), same_tail) (rw at cur),
            omega arith,
            m<n,
            (lt_false m i e at i≤m (omega arith), seen),
          )
      | inr upto ↦
          let i≤l : i ≤ l = ground arith in
          let (m, cur, l≤m, m<n, seen) = cursor_lem l (suc i) n q p top r in
          (
            m,
            rw (lt_false l i e at i≤l (omega arith)) cur,
            l≤m,
            m<n,
            (lt_false m i e at (omega arith) (omega arith), seen),
          )
    ]
