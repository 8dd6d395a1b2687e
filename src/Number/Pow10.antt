-- ===== src/Number/Pow10.antt =====
-- `pow10` is the power of ten as long as that fits 64 bits.
use native.Mathlib.Nat.{pow-suc, zero-add, mod-eq_of_lt}
use go_restconf.GoText.Digits.{u64_mod}
use go_restconf.Number.{pow10_loop, pow10}
use go_restconf.Common.{ℕ, zero, suc, ◌+◌, ◌*◌, ◌^◌, ◌≤◌, ◌<◌, ◌≡◌, ◌∙◌, arith}

pub pow10_pos : (e : ℕ) → 1 ≤ 10 ^ e
pow10_pos zero = omega arith
pow10_pos (suc e) = rw pow-suc (omega (arith, pow10_pos e))

pub pow10-add : (a b : ℕ) → 10 ^ (a + b) ≡ 10 ^ a * 10 ^ b
pow10-add zero b = rw zero-add (omega arith)
pow10-add (suc a) b =
    let e : suc a + b ≡ suc (a + b) = omega arith in
    rw (e, pow-suc 10 (a + b), pow-suc 10 a) (omega (arith, pow10-add a b))

pow10_loop_lem : (e out : ℕ) → out * 10 ^ e < u64_mod → pow10_loop e out ≡ out * 10 ^ e
unfolding pow10_loop
pow10_loop_lem zero out h = omega arith
pow10_loop_lem (suc e) out h =
    let h' : out * (10 ^ e * 10) < u64_mod = rw (pow-suc 10 e) at h in
    let fits : out * 10 * 10 ^ e < u64_mod = omega arith in
    let small : out * 10 < u64_mod = grind (arith, pow10_pos e) in
    rw (mod-eq_of_lt small) (pow10_loop_lem e (out * 10) fits ∙ rw pow-suc (omega arith))

pub pow10_lem : (e : ℕ) → 10 ^ e < u64_mod → pow10 e ≡ 10 ^ e
unfolding pow10
pow10_lem e h = pow10_loop_lem e 1 (omega arith) ∙ omega arith
