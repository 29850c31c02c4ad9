-- ===== src/Identity/Laws.antt =====
-- The acceptance of a quoting enclave by `verifyQeIdentity`, packages/qvl/src/verifyQeIdentity.ts.
use teekit.Common.{
  ℕ, ◌≤◌, ◌≡◌, ◌⊎◌, inl, inr, refl, ◌∙◌, Bool, true, false, not, List, [], ◌∷◌, Option, none, some,
  length, find, All, Text, list_eq_iff, to_lower_case, ◌==◌, ==_iff, Bool-cases, Option-cases,
  &&-true, if◌then◌else◌, bit_and,
}
use teekit.Result.{Result, ok, err, >>=-eq-ok, bad_hex}
use teekit.Bytes.{Bytes}
use teekit.Struct.{Restructure}
use teekit.Packages.{Hex}
use teekit.Tcb.{TcbService}
use teekit.Tcb.Status.{date_le-le}
use teekit.Quote.Parse.{TdxQuote, parse_tdx_quote}
use teekit.Identity.{
  QeLevel, EnclaveIdentity, QeReport, parse_sgx_report, masked_equal, require_hex,
  hex_equals_masked, is_up_to_date, pick_level, isv_prod_id_holds, level_holds, identity_in_time,
  signer_and_level, report_matches, verify_qe_identity,
}

-- The bytes agree in the bits of the mask.
abbrev pub AgreeUnder : (actual exp mask : Bytes) → Type 0
AgreeUnder (a ∷ actual) (e ∷ exp) (m ∷ mask) =
    (bit_and a m ≡ bit_and e m) × AgreeUnder actual exp mask
AgreeUnder _ _ _ = Unit

-- The level is up to date, or none of the levels is.
abbrev pub IsBestOf : List QeLevel → QeLevel → Type 0
IsBestOf levels level = (is_up_to_date level ≡ true) ⊎ All (λ l. is_up_to_date l ≡ false) levels

pub record IsIdentified (restructure : Restructure) (hex : Hex) (service : TcbService)
    (quote : Bytes) (id : EnclaveIdentity) (now : ℕ) : Type 0 where
  pub q : TdxQuote
  pub parsed : parse_tdx_quote restructure quote ≡ ok q
  pub report : QeReport
  pub is_report : parse_sgx_report q.signature.qe_report ≡ ok report
  pub issued : ℕ
  pub is_issued : service.parse_date id.issue_date ≡ some issued
  pub issued_by_now : issued ≤ now
  pub next_update : ℕ
  pub is_next_update : service.parse_date id.next_update ≡ some next_update
  pub now_by_next_update : now ≤ next_update
  pub exp : Bytes
  pub is_exp : hex.decode id.attributes ≡ some exp
  pub mask : Bytes
  pub is_mask : hex.decode id.attributes_mask ≡ some mask
  pub exp_length : length exp ≡ length report.attributes
  pub mask_length : length mask ≡ length report.attributes
  pub attributes_agree : AgreeUnder report.attributes exp mask
  pub signer : to_lower_case (hex.encode report.mr_signer) ≡ to_lower_case id.mrsigner
  pub product : (n : ℕ) → id.isvprodid ≡ some n → n ≡ report.isv_prod_id
  pub level : QeLevel
  pub is_picked : pick_level id.tcb_levels ≡ some level
  pub is_best : IsBestOf id.tcb_levels level
  pub is_svn : level.isvsvn ≡ report.isv_svn

masked_equal-AgreeUnder :
    (actual exp mask : Bytes) → masked_equal actual exp mask ≡ true → AgreeUnder actual exp mask
unfolding masked_equal
masked_equal-AgreeUnder (a ∷ actual) (e ∷ exp) (m ∷ mask) h =
    let (here, later) = &&-true (bit_and a m == bit_and e m) _ h in
    ((==_iff _ _).0 here, masked_equal-AgreeUnder actual exp mask later)
masked_equal-AgreeUnder [] exp mask h = tt
masked_equal-AgreeUnder (a ∷ actual) [] mask h = tt
masked_equal-AgreeUnder (a ∷ actual) (e ∷ exp) [] h = tt

find-none :
    (levels : List QeLevel)
    → find is_up_to_date levels ≡ none
    → All (λ l. is_up_to_date l ≡ false) levels
find-none [] h = tt
find-none (l ∷ levels) h = elim (Bool-cases (is_up_to_date l)) [
  | inl found ↦ absurd (some-ne-none (rw (found, find) at h))
  | inr other ↦ (other, find-none levels (rw (other, find) at h))
]
  where
    some-ne-none : {x : QeLevel} → some x ≡ none → ⊥
    some-ne-none e = cc

find-some :
    (levels : List QeLevel) (l : QeLevel)
    → find is_up_to_date levels ≡ some l
    → is_up_to_date l ≡ true
find-some [] l h = cc
find-some (first ∷ levels) l h = elim (Bool-cases (is_up_to_date first)) [
  | inl found ↦ let same : first ≡ l = some-eq (rw (found, find) at h) in rw (← same) found
  | inr other ↦ find-some levels l (rw (other, find) at h)
]
  where
    some-eq : {x y : QeLevel} → some x ≡ some y → x ≡ y
    some-eq e = cc

pick_level-IsBestOf :
    (levels : List QeLevel) (level : QeLevel)
    → pick_level levels ≡ some level
    → IsBestOf levels level
unfolding pick_level
pick_level-IsBestOf [] level h = cc
pick_level-IsBestOf (first ∷ more) level h =
    elim (Option-cases (find is_up_to_date (first ∷ more))) [
      | inl none_found ↦ inr (find-none (first ∷ more) none_found)
      | inr (l, found) ↦
          let same : l ≡ level = some-eq (rw (found, pick_level) at h) in
          inl (rw (← same) (find-some (first ∷ more) l found))
    ]
  where
    some-eq : {x y : QeLevel} → some x ≡ some y → x ≡ y
    some-eq e = cc

require_hex-some :
    (hex : Hex) (text : Text) {bs : Bytes}
    → require_hex hex text ≡ ok bs
    → hex.decode text ≡ some bs
require_hex-some hex text {bs} e = by_decode (hex.decode text) (unfold require_hex in e)
  where
    by_decode :
        (o : Option Bytes) → (elim o [ none ↦ err bad_hex | some b ↦ ok b ]) ≡ ok bs → o ≡ some bs
    by_decode none h = cc
    by_decode (some b) h = cc

isv_prod_id_holds-eq :
    (actual : ℕ) (o : Option ℕ)
    → isv_prod_id_holds actual o ≡ true
    → (n : ℕ) → o ≡ some n
    → n ≡ actual
unfolding isv_prod_id_holds
isv_prod_id_holds-eq actual o h n e = equal (rw (e, isv_prod_id_holds) at h)
  where
    equal : (n == actual) ≡ true → n ≡ actual
    equal k = (==_iff _ _).0 k

level_holds-eq :
    (svn : ℕ) (o : Option QeLevel)
    → level_holds svn o ≡ true
    → (level : QeLevel) × (o ≡ some level) × (level.isvsvn ≡ svn)
unfolding level_holds
level_holds-eq svn none h = cc
level_holds-eq svn (some level) h = (level, refl, (==_iff _ _).0 h)

ok-eq : {a b : Bool} → ok a ≡ ok b → a ≡ b
ok-eq h = cc

unless_false :
    (t : Bool) (rest : Result Bool)
    → (if not t then ok false else rest) ≡ ok true
    → (t ≡ true) × (rest ≡ ok true)
unless_false true rest h = (refl, h)
unless_false false rest h = cc

module _ (restructure : Restructure) (hex : Hex) (service : TcbService) (quote : Bytes)
    (id : EnclaveIdentity) (now : ℕ) where
  IsIdentified-of :
      (q : TdxQuote) (report : QeReport)
      → parse_tdx_quote restructure quote ≡ ok q
      → parse_sgx_report q.signature.qe_report ≡ ok report
      → report_matches restructure hex service report id now ≡ ok true
      → IsIdentified restructure hex service quote id now
  unfolding report_matches identity_in_time hex_equals_masked signer_and_level
  IsIdentified-of q report parsed is_report e =
      let (in_time, e1) = unless_false _ _ e in
      let (from, until) = &&-true _ _ in_time in
      let (issued, t, is_issued, is_t, le) =
        date_le-le (service.parse_date id.issue_date) (some now) from in
      let (t', next, is_t', is_next, le') =
        date_le-le (some now) (service.parse_date id.next_update) until in
      let (agree, compared, e2) =
        >>=-eq-ok (hex_equals_masked hex report.attributes id.attributes id.attributes_mask) _ e1 in
      let (agree_true, rest) = &&-true agree _ (ok-eq e2) in
      let (exp, got_exp, e3) = >>=-eq-ok (require_hex hex id.attributes) _ compared in
      let (mask, got_mask, e4) = >>=-eq-ok (require_hex hex id.attributes_mask) _ e3 in
      let (lengths, bits) = &&-true _ _ (ok-eq e4 ∙ agree_true) in
      let (exp_length, mask_length) = &&-true _ _ lengths in
      let (signers, level_part) = &&-true _ _ rest in
      let (signer, product) = &&-true _ _ signers in
      let (level, picked, is_svn) = level_holds-eq _ _ level_part in
      record {
        q = q;
        parsed = parsed;
        report = report;
        is_report = is_report;
        issued = issued;
        is_issued = is_issued;
        issued_by_now = rw (some-eq is_t) le;
        next_update = next;
        is_next_update = is_next;
        now_by_next_update = rw (some-eq is_t') le';
        exp = exp;
        is_exp = require_hex-some hex _ got_exp;
        mask = mask;
        is_mask = require_hex-some hex _ got_mask;
        exp_length = (==_iff _ _).0 exp_length;
        mask_length = (==_iff _ _).0 mask_length;
        attributes_agree = masked_equal-AgreeUnder report.attributes exp mask bits;
        signer = (list_eq_iff _ _).0 signer;
        product = isv_prod_id_holds-eq report.isv_prod_id id.isvprodid product;
        level = level;
        is_picked = picked;
        is_best = pick_level-IsBestOf id.tcb_levels level picked;
        is_svn = is_svn;
      }
    where
      some-eq : {a b : ℕ} → some a ≡ some b → a ≡ b
      some-eq e = cc

  -- If a quote passes against an enclave identity at a time, its QE report has the attributes of the
  -- identity in the bits of the mask, its signer, its product number if there is one, and the isvsvn
  -- of a level that is up to date, or of the first level if none is; the time is within the
  -- identity's dates.
  pub verify_qe_identity-IsIdentified :
      verify_qe_identity restructure hex service quote id now ≡ ok true
      → IsIdentified restructure hex service quote id now
  unfolding verify_qe_identity
  verify_qe_identity-IsIdentified e =
      let (q, parsed, e1) = >>=-eq-ok (parse_tdx_quote restructure quote) _ e in
      let (present, e2) = unless_false q.signature.qe_report_present _ e1 in
      let (report, is_report, e3) = >>=-eq-ok (parse_sgx_report q.signature.qe_report) _ e2 in
      IsIdentified-of q report parsed is_report e3
