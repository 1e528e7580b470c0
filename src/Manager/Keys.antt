-- ===== src/Manager/Keys.antt =====
-- Equality of retry keys.
use veloria.Base.{◌≡◌, ◌↔◌, true, arith, bytes_eq_iff}
use veloria.Manager.{RetryKey, key_eq}

pub key_eq_iff : (k j : RetryKey) → (key_eq k j ≡ true) ↔ (k ≡ j)
unfolding key_eq
key_eq_iff k j =
    let a = bytes_eq_iff k.repo_type j.repo_type in
    let b = bytes_eq_iff k.slug j.slug in (λ h. ground (arith, a, b), λ h. ground (arith, a, b))
