-- ===== src/Bus/NoLoss.antt =====
-- Between two polls of a topic a consumer misses nothing and sees nothing twice, as long as at most
-- 512 events of that topic are published in between.
use ngx_lua_cpp.Prelude.{
  ℕ, ◌+◌, ◌≤◌, ◌<◌, ◌^◌, ◌≡◌, refl, ap, sym, ◌∙◌, true, false, List, [], ◌∷◌, ◌++◌, append_assoc,
  append-nil, length, length-append, ltb, ltb→lt, pop_front, All, All-append, arith, if◌then◌else◌,
  inl, inr, Bool-cases,
}
use ngx_lua_cpp.Prelude.Order.{same, bytes_ord}
use ngx_lua_cpp.Prelude.Text.{Bytes}
use ngx_lua_cpp.Prelude.Map.{eq_of_same}
use ngx_lua_cpp.Prelude.Double.{Double, IsDouble}
use ngx_lua_cpp.Bus.{Event, EventBus, queue, append, publish, events}
use ngx_lua_cpp.Bus.Valid.{IsValid, queue-publish, publish-IsValid}
use ngx_lua_cpp.Bus.Delivery.{newer, events_lem, cursor_lem, lt_true}

-- A call of `pub`: the time, the topic and the payload.
abbrev pub Publication : Type 0 → Type 0
Publication D = D × Bytes × Bytes

module _ {D : Type 0} (d : Double D) where
  unfoldable pub publish_all : List (Publication D) → EventBus D → EventBus D
  publish_all [] b = b
  publish_all ((now, topic, payload) ∷ ps) b = publish_all ps (publish d now topic payload b)

  -- The events of topic `t` that the calls make, where the next identifier is `n`.
  unfoldable pub published : ℕ → Bytes → List (Publication D) → List (Event D)
  published n t [] = []
  published n t ((now, topic, payload) ∷ ps) =
      let rest = published (n + 1) t ps in
      if same t topic then (d.of_nat n, now, payload) ∷ rest else rest

  -- A queue that ends in `new`, which the cursor has not reached, and starts with what it has passed.
  record Tracks (cur : D) (q new : List (Event D)) : Type 0 where
    old : List (Event D)
    splits : q ≡ old ++ new
    passed : All (λ e. d.lt cur e.0 ≡ false) old
    ahead : All (λ e. d.lt cur e.0 ≡ true) new

  newer_passed :
      (cur : D) (old new : List (Event D))
      → All (λ e. d.lt cur e.0 ≡ false) old
      → newer d cur (old ++ new) ≡ newer d cur new
  newer_passed cur [] new h = refl
  newer_passed cur (e ∷ old) new h = rw h.0 (newer_passed cur old new h.1)

  newer_ahead :
      (cur : D) (new : List (Event D)) → All (λ e. d.lt cur e.0 ≡ true) new → newer d cur new ≡ new
  newer_ahead cur [] h = refl
  newer_ahead cur (e ∷ new) h = rw h.0 (ap (◌∷◌ e) (newer_ahead cur new h.1))

  Tracks-newer : (cur : D) (q new : List (Event D)) → Tracks cur q new → newer d cur q ≡ new
  Tracks-newer cur q new t =
      rw t.splits (newer_passed cur t.old new t.passed ∙ newer_ahead cur new t.ahead)

  Tracks-append :
      (cur : D) (q new : List (Event D)) (e : Event D)
      → d.lt cur e.0 ≡ true
      → length (new ++ e ∷ []) ≤ 512
      → Tracks cur q new
      → Tracks cur (append d e q) (new ++ e ∷ [])
  unfolding append
  Tracks-append cur q new e above fits t = elim (Bool-cases (ltb 512 (length (q ++ e ∷ [])))) [
    | inr short ↦
        rw short (record { old = t.old; splits = whole; passed = t.passed; ahead = ahead' })
    | inl long ↦ rw long (drop_oldest t.old whole t.passed (ltb→lt 512 _ long))
  ]
    where
      whole : q ++ e ∷ [] ≡ t.old ++ (new ++ e ∷ [])
      whole = rw (t.splits, append_assoc t.old new (e ∷ []))

      ahead' : All (λ x. d.lt cur x.0 ≡ true) (new ++ e ∷ [])
      ahead' = All-append _ new (e ∷ []) t.ahead (above, tt)

      drop_oldest :
          (old : List (Event D))
          → q ++ e ∷ [] ≡ old ++ (new ++ e ∷ [])
          → All (λ x. d.lt cur x.0 ≡ false) old
          → 512 < length (q ++ e ∷ [])
          → Tracks cur (pop_front (q ++ e ∷ [])) (new ++ e ∷ [])
      drop_oldest [] w p long = absurd (omega (arith, ap length w))
      drop_oldest (x ∷ old) w p long = record {
        old = old;
        splits = rw w;
        passed = p.1;
        ahead = ahead';
      }

  module _ (laws : IsDouble d) (t : Bytes) (m : ℕ) where
    tracked :
        (ps : List (Publication D)) (n : ℕ) (b : EventBus D) (new : List (Event D))
        → m < n
        → n + length ps ≤ 2 ^ 53
        → IsValid d n b
        → Tracks (d.of_nat m) (queue t b) new
        → length (new ++ published n t ps) ≤ 512
        → newer d (d.of_nat m) (queue t (publish_all ps b)) ≡ new ++ published n t ps
    unfolding publish_all published
    tracked [] n b new p top v k fits = rw (append-nil new) (Tracks-newer _ _ new k)
    tracked ((now, topic, payload) ∷ ps) n b new p top v k fits = elim (Bool-cases (same t topic)) [
      | inl here ↦ rw here (
          tracked ps (n + 1) b' (new ++ e ∷ []) (omega arith) (omega arith) v' (added here)
            (rw (append_assoc new (e ∷ []) (published (n + 1) t ps)) (rw here at fits))
          ∙ append_assoc new (e ∷ []) (published (n + 1) t ps))
      | inr other ↦ rw other (
          tracked ps (n + 1) b' new (omega arith) (omega arith) v'
            (rw (queue-publish d now topic payload t b, other) k) (rw other at fits))
    ]
      where
        e : Event D
        e = (d.of_nat n, now, payload)

        b' : EventBus D
        b' = publish d now topic payload b

        v' : IsValid d (n + 1) b'
        v' = publish-IsValid d laws n b now topic payload (omega arith) v

        added : same t topic ≡ true → Tracks (d.of_nat m) (queue t b') (new ++ e ∷ [])
        added here =
            let at : queue t b' ≡ append d e (queue t b) =
              queue-publish d now topic payload t b
              ∙ rw (here, v.next, ← eq_of_same t topic here) in
            let room : length (new ++ e ∷ []) ≤ 512 = omega (
              arith,
              length-append new (e ∷ []),
              length-append new (e ∷ published (n + 1) t ps),
              rw here at fits,
            ) in
            rw at (
              Tracks-append (d.of_nat m) (queue t b) new e
                (lt_true d laws m n e refl p (omega arith)) room k)

  -- A consumer whose cursor is 0 or a published identifier polls; then at most 512 events of its
  -- topic are published, among any others. A second poll before those finds nothing, and one after
  -- them returns exactly those events, in order. No identifier is above 2 ^ 53, up to which a double is
  -- exact.
  pub no_loss :
      (laws : IsDouble d) (l n : ℕ) (b : EventBus D) (t : Bytes) (ps : List (Publication D))
      → l < n
      → n + length ps ≤ 2 ^ 53
      → IsValid d n b
      → length (published n t ps) ≤ 512
      → let cur = (events d t (d.of_nat l) b).1 in
        ((events d t cur b).0 ≡ []) × ((events d t cur (publish_all ps b)).0 ≡ published n t ps)
  no_loss laws l n b t ps p top v fits =
      let (m, at, _, below, seen) = cursor_lem d laws l 0 n (queue t b) p v.exact (v.ids t) in
      let tracks : Tracks (d.of_nat m) (queue t b) [] = record {
        old = queue t b;
        splits = sym (append-nil (queue t b));
        passed = seen;
        ahead = tt;
      } in
      rw
        (
          events_lem d t (d.of_nat l) b,
          at,
          events_lem d t (d.of_nat m) b,
          events_lem d t (d.of_nat m) (publish_all ps b),
        )
        (
          Tracks-newer (d.of_nat m) (queue t b) [] tracks,
          tracked laws t m ps n b [] below top v tracks fits,
        )
