-- ===== src/Intel/Laws.antt =====
-- The shared parts of the Intel verifiers, packages/qvl/src/verifyTdx.ts and verifySgx.ts, when
-- they let a quote through.
use teekit.Common.{
  ℕ, suc, ◌+◌, ◌≡◌, ◌⊎◌, inl, inr, refl, ◌∙◌, arith, Bool, true, false, not, ◌||◌, List, [], ◌∷◌,
  Option, none, some, length, Any, Text, list_eq, list_eq_iff, last_of, Bool-cases, ◌==◌, ==_iff,
  if◌then◌else◌,
}
use teekit.Result.{Result, ok, err, stuck, >>=-eq-ok, require-eq-ok}
use teekit.Bytes.{Bytes, subarray}
use teekit.Packages.{Hex, X509, Certificate}
use teekit.Quote.Signature.{Signature}
use teekit.Pem.{extract_pem_certificates}
use teekit.Chain.Walk.{new_certificates, find_leaf, walk}
use teekit.Chain.{
  Status, valid, invalid, expired, revoked, PckChain, leaf_result, invalid_chain_result,
  check_revocation, check_chain, chain_of, verify_pck_chain,
}
use teekit.Chain.Trusted.{IsTrusted}
use teekit.Chain.Trust.{check_chain-IsTrusted}
use teekit.Intel.Defs.{
  Env, or_else, is_empty, chain_with_fallback, require_valid, require_root, compute_cert_sha256_hex,
  is_pinned, catch_false, qe_certificates, qe_report_signature, qe_report_binding, quote_signature,
}

-- The certificates, their leaf and what stands above it, as verification finds them.
pub record IsWalked (x : X509) (pems : List Text) (leaf : Certificate) (above : List Certificate)
    : Type 0 where
  pub first : Certificate
  pub more : List Certificate
  pub parsed : new_certificates x 0 pems ≡ ok (first ∷ more)
  pub is_leaf : find_leaf first more ≡ leaf
  pub walked : walk (suc (length more) + 1) (first ∷ more) leaf ≡ some above

module _ (hex : Hex) (x : X509) where
  chain_of-walked :
      (at_time : Option ℕ) (crls : List Bytes) (first : Certificate) (more : List Certificate)
      {c : PckChain}
      → chain_of hex x at_time crls first more ≡ ok c
      → (above : List Certificate) × (walk
            (suc (length more) + 1)
            (first ∷ more)
            (find_leaf first more)
          ≡ some above)
        × (check_chain hex x at_time crls (find_leaf first more) above ≡ ok c)
  unfolding chain_of
  chain_of-walked at_time crls first more {c} e = by_walk _ refl e
    where
      by_walk :
          (o : Option (List Certificate))
          → walk (suc (length more) + 1) (first ∷ more) (find_leaf first more) ≡ o
          → (elim o [
            | none ↦ stuck
            | some above ↦ check_chain hex x at_time crls (find_leaf first more) above
          ])
            ≡ ok c
          → (above : List Certificate) × (walk
                (suc (length more) + 1)
                (first ∷ more)
                (find_leaf first more)
              ≡ some above)
            × (check_chain hex x at_time crls (find_leaf first more) above ≡ ok c)
      by_walk none w e = cc
      by_walk (some above) w e = (above, w, e)

  -- A valid chain of certificates was walked from its leaf, and is trusted.
  pub verify_pck_chain-valid :
      (pems : List Text) (at_time : Option ℕ) (crls : List Bytes) (c : PckChain)
      → verify_pck_chain hex x pems at_time crls ≡ ok c
      → c.status ≡ valid
      → (leaf : Certificate) × (above : List Certificate) × IsWalked x pems leaf above
        × (c ≡ leaf_result valid (some (last_of leaf above)) (leaf ∷ above) leaf)
        × IsTrusted hex x at_time crls leaf above
  unfolding verify_pck_chain
  verify_pck_chain-valid pems at_time crls c e is_valid =
      let (certs, parsed, e1) = >>=-eq-ok (new_certificates x 0 pems) _ e in
      by_certs certs parsed e1
    where
      by_certs :
          (certs : List Certificate)
          → new_certificates x 0 pems ≡ ok certs
          → (elim certs [
            | [] ↦ ok invalid_chain_result
            | first ∷ more ↦ chain_of hex x at_time crls first more
          ])
            ≡ ok c
          → (leaf : Certificate) × (above : List Certificate) × IsWalked x pems leaf above
            × (c ≡ leaf_result valid (some (last_of leaf above)) (leaf ∷ above) leaf)
            × IsTrusted hex x at_time crls leaf above
      by_certs [] parsed e1 = cc
      by_certs (first ∷ more) parsed e1 =
          let (above, walked, e2) = chain_of-walked at_time crls first more e1 in
          let leaf = find_leaf first more in
          let (same, trusted) = check_chain-IsTrusted hex x at_time crls leaf above c e2 is_valid in
          (
            leaf,
            above,
            record { first = first; more = more; parsed = parsed; is_leaf = refl; walked = walked },
            same,
            trusted,
          )

  check_chain-leaf :
      (at_time : Option ℕ) (crls : List Bytes) (leaf : Certificate) (above : List Certificate)
      (c : PckChain) {y : Certificate} {ys : List Certificate}
      → check_chain hex x at_time crls leaf above ≡ ok c
      → c.chain ≡ y ∷ ys
      → y ≡ leaf
  unfolding check_chain check_revocation
  check_chain-leaf at_time crls leaf above c e h = ground arith

  -- Walked again, the same certificates have the same leaf.
  pub verify_pck_chain-leaf :
      (pems : List Text) (at_time : Option ℕ) (crls : List Bytes) (c : PckChain)
      {leaf : Certificate} {above : List Certificate} {y : Certificate} {ys : List Certificate}
      → IsWalked x pems leaf above
      → verify_pck_chain hex x pems at_time crls ≡ ok c
      → c.chain ≡ y ∷ ys
      → y ≡ leaf
  unfolding verify_pck_chain
  verify_pck_chain-leaf pems at_time crls c {leaf} w e h =
      let (above, walked, e1) = chain_of-walked at_time crls w.first w.more (rw w.parsed at e) in
      check_chain-leaf at_time crls (find_leaf w.first w.more) above c e1 h ∙ w.is_leaf

module _ (env : Env) where
  -- The certificates that count: those in the quote, or the extra ones if it holds none.
  used_of :
      (certs : List Text) (extra : Option (List Text)) (at_time : ℕ) (crls : List Bytes)
      (c : PckChain)
      → chain_with_fallback env certs extra at_time crls ≡ ok c
      → c.status ≡ valid
      → verify_pck_chain env.hex env.x509
          (if is_empty certs then or_else extra [] else certs)
          (some at_time)
          crls
        ≡ ok c
  unfolding chain_with_fallback verify_pck_chain new_certificates
  used_of [] none at_time crls c e v = cc
  used_of [] (some extra) at_time crls c e v = e
  used_of (pem ∷ pems) extra at_time crls c e v = ground arith

  pub chain_with_fallback-used :
      (s : Signature) (extra : Option (List Text)) (at_time : ℕ) (crls : List Bytes) (c : PckChain)
      → chain_with_fallback env (extract_pem_certificates env.x509 s.cert_data) extra at_time crls
        ≡ ok c
      → c.status ≡ valid
      → verify_pck_chain env.hex env.x509 (qe_certificates env s extra) (some at_time) crls ≡ ok c
  unfolding qe_certificates
  chain_with_fallback-used s extra at_time crls c e v = used_of _ extra at_time crls c e v

  -- A pinned root has the hash of one of the pinned certificates.
  pub is_pinned-Any :
      (pinned : List Certificate) (root : Certificate)
      → is_pinned env pinned root ≡ true
      → Any (λ p. compute_cert_sha256_hex env root ≡ compute_cert_sha256_hex env p) pinned
  unfolding is_pinned
  is_pinned-Any [] root h = cc
  is_pinned-Any (p ∷ pinned) root h =
      elim (Bool-cases
        (list_eq (compute_cert_sha256_hex env root) (compute_cert_sha256_hex env p))) [
          | inl same ↦ inl ((list_eq_iff _ _).0 same)
          | inr other ↦ inr (is_pinned-Any pinned root (rw other at h))
        ]

  pub require_valid-ok : (s : Status) {u : Unit {0}} → require_valid env s ≡ ok u → s ≡ valid
  unfolding require_valid
  require_valid-ok valid e = refl
  require_valid-ok invalid e = cc
  require_valid-ok expired e = cc
  require_valid-ok revoked e = cc

  pub require_root-ok :
      (o : Option Certificate) {root : Certificate} → require_root env o ≡ ok root → o ≡ some root
  unfolding require_root
  require_root-ok none e = cc
  require_root-ok (some r) e = cc

  catch_false-true : (m : Result Bool) → catch_false env m ≡ ok true → m ≡ ok true
  unfolding catch_false
  catch_false-true (ok b) e = e
  catch_false-true (err x) e = cc
  catch_false-true stuck e = cc

  -- A QE report that passes was signed by the leaf that stands under the checked chain.
  pub qe_report_signature-leaf :
      (s : Signature) (extra : Option (List Text)) {leaf : Certificate} {above : List Certificate}
      → IsWalked env.x509 (qe_certificates env s extra) leaf above
      → qe_report_signature env s extra ≡ ok true
      → (s.qe_report_present ≡ true)
        × (env.crypto.verify_p256_spki leaf.public_key s.qe_report_signature s.qe_report ≡ ok true)
  unfolding qe_report_signature
  qe_report_signature-leaf s extra {leaf} {above} w e =
      let (present, e1) = unless_false (not s.qe_report_present) _ e in
      let (certs, e2) = unless_false (is_empty (qe_certificates env s extra)) _ e1 in
      let (c, found, e3) =
        >>=-eq-ok (verify_pck_chain env.hex env.x509 (qe_certificates env s extra) none []) _ e2 in
      (ground (arith, present), by_chain c c.chain refl found e3)
    where
      unless_false :
          (t : Bool) (rest : Result Bool)
          → (if t then ok false else rest) ≡ ok true
          → (t ≡ false) × (rest ≡ ok true)
      unless_false true rest h = cc
      unless_false false rest h = (refl, h)

      by_chain :
          (c : PckChain) (chain : List Certificate)
          → c.chain ≡ chain
          → verify_pck_chain env.hex env.x509 (qe_certificates env s extra) none [] ≡ ok c
          → (elim chain [
            | [] ↦ ok false
            | y ∷ ys ↦
                catch_false env
                  (env.crypto.verify_p256_spki y.public_key s.qe_report_signature s.qe_report)
          ])
            ≡ ok true
          → env.crypto.verify_p256_spki leaf.public_key s.qe_report_signature s.qe_report ≡ ok true
      by_chain c [] h found e3 = cc
      by_chain c (y ∷ ys) h found e3 =
          rw (← verify_pck_chain-leaf env.hex env.x509 _ none [] c w found h)
            (catch_false-true _ e3)

  -- The binding of the attestation key to the QE report.
  abbrev pub IsQeBound : Signature → Type 0
  IsQeBound s =
      (s.qe_report_present ≡ true)
      × ((env.crypto.sha256 (env.crypto.concat (s.attestation_public_key ∷ s.qe_auth_data ∷ []))
            ≡ subarray (subarray s.qe_report 320 384) 0 32)
          ⊎ (env.crypto.sha256
                (env.crypto.concat ((0x04 ∷ []) ∷ s.attestation_public_key ∷ s.qe_auth_data ∷ []))
              ≡ subarray (subarray s.qe_report 320 384) 0 32))

  pub qe_report_binding-IsQeBound :
      (s : Signature) → qe_report_binding env s ≡ ok true → IsQeBound s
  unfolding qe_report_binding
  qe_report_binding-IsQeBound s e =
      let (present, e1) = require-eq-ok s.qe_report_present _ _ e in
      (present, by_hash _ _ _ (ok_true e1))
    where
      ok_true : {b : Bool} → ok b ≡ ok true → b ≡ true
      ok_true h = cc

      by_hash :
          (a b embed : Bytes)
          → env.crypto.equal a embed || env.crypto.equal b embed ≡ true
          → (a ≡ embed) ⊎ (b ≡ embed)
      by_hash a b embed h = elim (Bool-cases (env.crypto.equal a embed)) [
        | inl same ↦ inl ((env.crypto.equal_iff a embed).0 same)
        | inr other ↦ inr ((env.crypto.equal_iff b embed).0 (rw other at h))
      ]

  pub quote_signature-ok :
      (s : Signature) (message : Bytes)
      → quote_signature env s message ≡ ok true
      → (length s.attestation_public_key ≡ 64)
        × (env.crypto.verify_p256_point
              (subarray s.attestation_public_key 0 32)
              (subarray s.attestation_public_key 32 64)
              s.ecdsa_signature
              message
            ≡ ok true)
  unfolding quote_signature
  quote_signature-ok s message e =
      let (len, e1) = require-eq-ok (length s.attestation_public_key == 64) _ _ e in
      ((==_iff _ _).0 len, e1)
