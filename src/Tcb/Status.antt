-- ===== src/Tcb/Status.antt =====
-- The status of `getTcbStatus` and what `verifyTcb` accepts, of packages/qvl/src/tcb.ts.
use teekit.Common.{
  ℕ, ◌≤◌, ◌≡◌, ◌⊎◌, inl, inr, refl, ap, ◌∙◌, arith, Bool, true, false, List, [], ◌∷◌, ◌++◌, Option,
  none, some, All, Text, codes, list_eq, list_eq_iff, ◌==◌, Bool-cases, &&-true, ||-true,
  false_is_true,
}
use teekit.Result.{ok, >>=-eq-ok}
use teekit.Tcb.{
  TcbLevel, IntelTcbInfo, status_of_levels, get_tcb_status, TcbService, date_le, is_tcb_info_fresh,
  require_response, is_acceptable_status, verify_tcb,
}
use teekit.Tcb.Laws.{Meets, meets}
use teekit.Tcb.Meets.{meets_iff}

-- The level is the first that the platform meets.
pub record IsFirst (cpu_svn : List ℕ) (pce_svn : ℕ) (is_tdx : Bool) (levels : List TcbLevel)
    (level : TcbLevel) : Type 0 where
  pub before : List TcbLevel
  pub after : List TcbLevel
  pub split : levels ≡ before ++ (level ∷ after)
  pub unmet : All (λ l. Meets cpu_svn pce_svn is_tdx l → ⊥) before
  pub met : Meets cpu_svn pce_svn is_tdx level

module _ (cpu_svn : List ℕ) (pce_svn : ℕ) (is_tdx : Bool) where
  not_met :
      (level : TcbLevel)
      → meets cpu_svn pce_svn is_tdx level ≡ false
      → Meets cpu_svn pce_svn is_tdx level
      → ⊥
  not_met level unmet_here m =
      false_is_true unmet_here ((meets_iff cpu_svn pce_svn level is_tdx).1 m)

  -- The status is that of the first level that the platform meets, or else "OutOfDate" if it meets
  -- none.
  pub status_of_levels-IsFirst :
      (levels : List TcbLevel)
      → ((level : TcbLevel) × IsFirst cpu_svn pce_svn is_tdx levels level
          × (status_of_levels cpu_svn pce_svn is_tdx levels ≡ level.tcb_status))
        ⊎ (All (λ l. Meets cpu_svn pce_svn is_tdx l → ⊥) levels
            × (status_of_levels cpu_svn pce_svn is_tdx levels ≡ codes "OutOfDate"))
  unfolding status_of_levels
  status_of_levels-IsFirst [] = inr (tt, refl)
  status_of_levels-IsFirst (level ∷ levels) =
      elim (Bool-cases (meets cpu_svn pce_svn is_tdx level)) [
        | inl yes_met ↦ inl (
          level,
          record {
            before = [];
            after = levels;
            split = refl;
            unmet = tt;
            met = (meets_iff cpu_svn pce_svn level is_tdx).0 yes_met;
          },
          rw yes_met,
        )
        | inr unmet_here ↦ elim (status_of_levels-IsFirst levels) [
          | inl (first, is_first, same) ↦ inl (
            first,
            record {
              before = level ∷ is_first.before;
              after = is_first.after;
              split = ap (λ t. level ∷ t) is_first.split;
              unmet = (not_met level unmet_here, is_first.unmet);
              met = is_first.met;
            },
            rw unmet_here same,
          )
          | inr (none_met, same) ↦ inr ((not_met level unmet_here, none_met), rw unmet_here same)
        ]
      ]

-- What `verifyTcb` returned true for: the service answered with information that is fresh, and the
-- first level that the platform meets is up to date or needs a configuration.
pub record IsCurrent (service : TcbService) (now : ℕ) (fmspc : Text) (cpu_svn : List ℕ)
    (pce_svn tee_type : ℕ) : Type 0 where
  pub info : IntelTcbInfo
  pub fetched : service.fetch (tee_type == 129) fmspc ≡ ok (some info)
  pub issued : ℕ
  pub is_issued : service.parse_date info.issue_date ≡ some issued
  pub issued_by_now : issued ≤ now
  pub next_update : ℕ
  pub is_next_update : service.parse_date info.next_update ≡ some next_update
  pub now_by_next_update : now ≤ next_update
  pub level : TcbLevel
  pub is_first : IsFirst cpu_svn pce_svn (tee_type == 129) info.tcb_levels level
  pub is_acceptable :
      (level.tcb_status ≡ codes "UpToDate") ⊎ (level.tcb_status ≡ codes "ConfigurationNeeded")

pub date_le-le :
    (a b : Option ℕ)
    → date_le a b ≡ true
    → (m : ℕ) × (n : ℕ) × (a ≡ some m) × (b ≡ some n) × (m ≤ n)
unfolding date_le
date_le-le (some m) (some n) h = (m, n, refl, refl, ground arith)
date_le-le none b h = cc
date_le-le (some m) none h = cc

some-eq : {a b : ℕ} → some a ≡ some b → a ≡ b
some-eq e = cc

module _ (service : TcbService) (now : ℕ) (fmspc : Text) (cpu_svn : List ℕ)
    (pce_svn tee_type : ℕ) where
  out_of_date-unacceptable : is_acceptable_status service (codes "OutOfDate") ≡ false
  unfolding is_acceptable_status list_eq
  out_of_date-unacceptable = refl

  acceptable-eq :
      (status : Text)
      → is_acceptable_status service status ≡ true
      → (status ≡ codes "UpToDate") ⊎ (status ≡ codes "ConfigurationNeeded")
  unfolding is_acceptable_status
  acceptable-eq status h = elim (||-true _ _ h) [
    | inl e ↦ inl ((list_eq_iff _ _).0 e)
    | inr e ↦ inr ((list_eq_iff _ _).0 e)
  ]

  require_response-ok :
      (o : Option IntelTcbInfo) {info : IntelTcbInfo}
      → require_response service o ≡ ok info
      → o ≡ some info
  unfolding require_response
  require_response-ok none e = cc
  require_response-ok (some info) e = cc

  IsCurrent-of :
      (info : IntelTcbInfo)
      → service.fetch (tee_type == 129) fmspc ≡ ok (some info)
      → is_tcb_info_fresh service info now ≡ true
      → is_acceptable_status service
          (status_of_levels cpu_svn pce_svn (tee_type == 129) info.tcb_levels)
        ≡ true
      → IsCurrent service now fmspc cpu_svn pce_svn tee_type
  unfolding is_tcb_info_fresh
  IsCurrent-of info fetched fresh acceptable =
      let (from, until) = &&-true _ _ fresh in
      let (issued, t, is_issued, is_t, le) =
        date_le-le (service.parse_date info.issue_date) (some now) from in
      let (t', next, is_t', is_next, le') =
        date_le-le (some now) (service.parse_date info.next_update) until in
      elim (status_of_levels-IsFirst cpu_svn pce_svn (tee_type == 129) info.tcb_levels) [
        | inl (level, is_first, same) ↦ record {
          info = info;
          fetched = fetched;
          issued = issued;
          is_issued = is_issued;
          issued_by_now = rw (some-eq is_t) le;
          next_update = next;
          is_next_update = is_next;
          now_by_next_update = rw (some-eq is_t') le';
          level = level;
          is_first = is_first;
          is_acceptable = acceptable-eq level.tcb_status (rw same at acceptable);
        }
        | inr (none_met, same) ↦
            absurd (false_is_true out_of_date-unacceptable (rw same at acceptable))
      ]

  -- If the TCB of a platform is accepted at a time, the service answered with information that is
  -- issued by then and not past its next update, and the first level that the platform meets has the
  -- status UpToDate or ConfigurationNeeded.
  pub verify_tcb-IsCurrent :
      verify_tcb service now fmspc cpu_svn pce_svn tee_type ≡ ok true
      → IsCurrent service now fmspc cpu_svn pce_svn tee_type
  unfolding verify_tcb get_tcb_status
  verify_tcb-IsCurrent e =
      let (response, fetched, e1) = >>=-eq-ok (service.fetch (tee_type == 129) fmspc) _ e in
      let (info, found, e2) = >>=-eq-ok (require_response service response) _ e1 in
      let (fresh, acceptable) = &&-true _ _ (ok-eq e2) in
      IsCurrent-of info (fetched ∙ ap ok (require_response-ok response found)) fresh acceptable
    where
      ok-eq : {a b : Bool} → ok a ≡ ok b → a ≡ b
      ok-eq h = cc
