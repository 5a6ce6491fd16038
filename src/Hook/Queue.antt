-- ===== src/Hook/Queue.antt =====
-- nginx's circular list, as src/ngx_lua_cpp.cpp declares it: `ngx_queue_t`, `ngx_queue_insert_tail` and
-- `ngx_queue_remove`. The store gives the two links that stand at each address.
use ngx_lua_cpp.Prelude.{ℕ, ◌==◌, if◌then◌else◌}

pub record Links : Type 0 where
  pub prev : ℕ → ℕ
  pub next : ℕ → ℕ

-- A write of one link.
abbrev pub write : (ℕ → ℕ) → ℕ → ℕ → ℕ → ℕ
write f a v x = if x == a then v else f x

abbrev pub set_prev : ℕ → ℕ → Links → Links
set_prev a v q = record { prev = write q.prev a v; next = q.next }

abbrev pub set_next : ℕ → ℕ → Links → Links
set_next a v q = record { prev = q.prev; next = write q.next a v }

unfoldable pub ngx_queue_insert_tail : ℕ → ℕ → Links → Links
ngx_queue_insert_tail h x q =
    let q₁ = set_prev x (q.prev h) q in
    let q₂ = set_next (q₁.prev x) x q₁ in let q₃ = set_next x h q₂ in set_prev h x q₃

unfoldable pub ngx_queue_remove : ℕ → Links → Links
ngx_queue_remove x q =
    let q₁ = set_prev (q.next x) (q.prev x) q in set_next (q₁.prev x) (q₁.next x) q₁
