-- ===== src/Bus/Valid.antt =====
-- The well-formedness of the bus: the identifiers are whole numbers below the next one, they
-- increase along each queue, and no queue holds more than 512 events.
use ngx_lua_cpp.Prelude.{
  ℕ, suc, ◌+◌, ◌≤◌, ◌<◌, ◌^◌, ◌≡◌, refl, List, [], ◌∷◌, ◌++◌, length, length-append,
  length-pop_front, ltb, pop_front, arith, if◌then◌else◌, inl, inr, Bool-cases,
}
use ngx_lua_cpp.Prelude.Order.{same, bytes_ord}
use ngx_lua_cpp.Prelude.Text.{Bytes}
use ngx_lua_cpp.Prelude.Map.{lookup, lookup-insert}
use ngx_lua_cpp.Prelude.Double.{Double, IsDouble}
use ngx_lua_cpp.Bus.{Event, EventBus, queue, init, append, publish}

module _ {D : Type 0} (d : Double D) where
  -- The identifiers increase from `lo` on, and end below `n`.
  abbrev pub Ids : ℕ → ℕ → List (Event D) → Type 0
  Ids lo n [] = lo ≤ n
  Ids lo n (e ∷ q) = (i : ℕ) × (e.0 ≡ d.of_nat i) × (lo ≤ i) × Ids (suc i) n q

  pub record IsValid (n : ℕ) (b : EventBus D) : Type 0 where
    pub next : b.next_id ≡ d.of_nat n
    pub exact : n ≤ 2 ^ 53
    pub ids : (t : Bytes) → Ids 0 n (queue t b)
    pub bounded : (t : Bytes) → length (queue t b) ≤ 512

  pub Ids-le : (lo n : ℕ) (q : List (Event D)) → Ids lo n q → lo ≤ n
  Ids-le lo n [] h = h
  Ids-le lo n (e ∷ q) (i, _, p, r) = omega (arith, Ids-le (suc i) n q r)

  Ids-append :
      (lo n : ℕ) (q : List (Event D)) (now : D) (payload : Bytes)
      → Ids lo n q
      → Ids lo (n + 1) (q ++ (d.of_nat n, now, payload) ∷ [])
  Ids-append lo n [] now payload h = (n, refl, h, omega arith)
  Ids-append lo n (e ∷ q) now payload (i, at, p, r) =
      (i, at, p, Ids-append (suc i) n q now payload r)

  Ids-weaken :
      (lo lo' n n' : ℕ) (q : List (Event D)) → lo' ≤ lo → n ≤ n' → Ids lo n q → Ids lo' n' q
  Ids-weaken lo lo' n n' [] p p' h = omega arith
  Ids-weaken lo lo' n n' (e ∷ q) p p' (i, at, le, r) =
      (i, at, omega arith, Ids-weaken (suc i) (suc i) n n' q (omega arith) p' r)

  Ids-pop_front : (n : ℕ) (q : List (Event D)) → Ids 0 n q → Ids 0 n (pop_front q)
  Ids-pop_front n [] h = h
  Ids-pop_front n (e ∷ q) (i, at, le, r) = Ids-weaken (suc i) 0 n n q (omega arith) (omega arith) r

  append-Ids :
      (n : ℕ) (now : D) (payload : Bytes) (q : List (Event D))
      → Ids 0 n q
      → Ids 0 (n + 1) (append d (d.of_nat n, now, payload) q)
  unfolding append
  append-Ids n now payload q h =
      elim (Bool-cases (ltb 512 (length (q ++ (d.of_nat n, now, payload) ∷ [])))) [
        | inl long ↦ rw long (Ids-pop_front (n + 1) _ (Ids-append 0 n q now payload h))
        | inr short ↦ rw short (Ids-append 0 n q now payload h)
      ]

  append_bounded : (e : Event D) (q : List (Event D)) → length q ≤ 512 → length (append d e q) ≤ 512
  unfolding append
  append_bounded e q h = ground (arith, length-append q (e ∷ []), length-pop_front (q ++ e ∷ []))

  pub queue-publish :
      (now : D) (topic payload t : Bytes) (b : EventBus D)
      → queue t (publish d now topic payload b)
        ≡ (if same t topic then append d (b.next_id, now, payload) (queue topic b) else queue t b)
  unfolding publish
  queue-publish now topic payload t b =
      ground
        (arith, lookup-insert topic t (append d (b.next_id, now, payload) (queue topic b)) b.topics)

  pub init-IsValid : IsValid 1 (init d)
  unfolding init lookup
  init-IsValid = record {
    next = refl;
    exact = omega arith;
    ids = λ t. omega arith;
    bounded = λ t. omega arith;
  }

  -- A publication keeps the bus well-formed, while the identifiers fit the exact integers of a
  -- double.
  pub publish-IsValid :
      (laws : IsDouble d) (n : ℕ) (b : EventBus D) (now : D) (topic payload : Bytes)
      → n < 2 ^ 53
      → IsValid n b
      → IsValid (n + 1) (publish d now topic payload b)
  publish-IsValid laws n b now topic payload room v = record {
    next = unfold publish in rw v.next (laws.add_exact n 1 (omega arith));
    exact = omega arith;
    ids = λ t. rw (queue-publish now topic payload t b) (elim (Bool-cases (same t topic)) [
      | inl here ↦ rw (here, v.next) (append-Ids n now payload (queue topic b) (v.ids topic))
      | inr other ↦
          rw other (Ids-weaken 0 0 n (n + 1) (queue t b) (omega arith) (omega arith) (v.ids t))
    ]);
    bounded = λ t. rw (queue-publish now topic payload t b) (elim (Bool-cases (same t topic)) [
      | inl here ↦
          rw here (append_bounded (b.next_id, now, payload) (queue topic b) (v.bounded topic))
      | inr other ↦ rw other (v.bounded t)
    ]);
  }
