-- ===== src/Tunnel/Client/Attest/Keyed.antt =====
-- What the checks of a `server_kx` handler of packages/tunnel/src/client.ts mean when they pass.
use teekit.Common.{◌≡◌, ◌≢◌, ◌⊎◌, inl, inr, refl, Bool, true, false, Option, none, some}
use teekit.Result.{
  Result, ok, err, stuck, Fault, require, ◌>>=◌, custom_quote_failed, measurement_failed,
}
use teekit.Tunnel.Client.Attest.{check_custom, check_measured, require_strategy}
use teekit.Tunnel.Client.Binding.{present_or}

pub ok_injective {ℓ} : {A : Type ℓ} {a b : A} → ok a ≡ ok b → a ≡ b
ok_injective e = cc

pub present_or-ok {ℓ} :
    {A : Type ℓ} (o : Option A) {fault : Result A} {value : A}
    → fault ≢ ok value
    → present_or o fault ≡ ok value
    → o ≡ some value
present_or-ok none other e = absurd (other e)
present_or-ok (some value) other e = cc

-- What was demanded of a callback was answered.
pub demanded_true :
    (r : Result Bool) (fault : Fault) {u : Unit {0}}
    → (r >>= λ b. require b fault) ≡ ok u
    → r ≡ ok true
demanded_true (ok true) fault e = refl
demanded_true (ok false) fault e = cc
demanded_true (err other) fault e = cc
demanded_true stuck fault e = cc

pub check_custom-ok {ℓ} :
    {Q : Type ℓ} (custom : Option (Q → Result Bool)) (q : Q) {u : Unit {0}}
    → check_custom custom q ≡ ok u
    → (f : Q → Result Bool) → custom ≡ some f
    → f q ≡ ok true
unfolding check_custom
check_custom-ok none q e f is_f = cc
check_custom-ok (some g) q e f is_f =
    let same : g ≡ f = cc in rw (← same) (demanded_true (g q) custom_quote_failed e)

pub check_measured-ok {ℓ} :
    {M : Type ℓ} (verify : M → Result Bool) (expected : Option M) {u : Unit {0}}
    → check_measured verify expected ≡ ok u
    → (m : M) → expected ≡ some m
    → verify m ≡ ok true
unfolding check_measured
check_measured-ok verify none e m is_m = cc
check_measured-ok verify (some n) e m is_m =
    let same : n ≡ m = cc in rw (← same) (demanded_true (verify n) measurement_failed e)

pub require_strategy-ok {ℓ κ} :
    {M : Type ℓ} {F : Type κ} (measurements : Option M) (custom : Option F) {u : Unit {0}}
    → require_strategy measurements custom ≡ ok u
    → (measurements ≢ none) ⊎ (custom ≢ none)
unfolding require_strategy
require_strategy-ok none none e = cc
require_strategy-ok (some m) custom e = inl (λ h. cc)
require_strategy-ok none (some f) e = inr (λ h. cc)
