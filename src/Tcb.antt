-- ===== src/Tcb.antt =====
-- packages/qvl/src/tcb.ts: the TCB status of a platform by the levels that the Intel service lists.
pub mod Laws
pub mod Meets
pub mod Status
use teekit.Common.{
  ℕ, zero, suc, Bool, true, false, not, ◌&&◌, ◌||◌, List, [], ◌∷◌, Option, none, some, get_elem?,
  Text, codes, list_eq, ltb, leb, ◌==◌, if◌then◌else◌,
}
use teekit.Result.{Result, ok, err, ◌>>=◌, fetch_failed}

-- One level of `tcbLevels`. `sgx_components` are the own properties sgxtcbcomp01svn to
-- sgxtcbcomp16svn in order, where a missing one is `none`; the two arrays hold for each component its
-- svn, if that is a number.
pub record TcbLevel : Type 0 where
  pub pcesvn : Option ℕ
  pub sgx_components : List (Option ℕ)
  pub sgxtcbcomponents : Option (List (Option ℕ))
  pub tdxtcbcomponents : Option (List (Option ℕ))
  pub tcb_status : Text

-- `IntelTcbInfo`, of which this is used.
pub record IntelTcbInfo : Type 0 where
  pub issue_date : Text
  pub next_update : Text
  pub tcb_levels : List TcbLevel

unfoldable pub pce_ok : ℕ → Option ℕ → Bool
pce_ok pce_svn none = true
pce_ok pce_svn (some required) = leb required pce_svn

-- `cpuSvn[comp - 1] < level.tcb[key]`: a platform component that is missing is not less.
unfoldable pub key_below : Option ℕ → Option ℕ → Bool
key_below (some svn) (some required) = ltb svn required
key_below _ _ = false

-- `(cpuSvn[i] ?? 0) < req.svn`: a platform component that is missing is 0.
unfoldable pub component_below : Option ℕ → Option ℕ → Bool
component_below (some svn) (some required) = ltb svn required
component_below none (some required) = ltb 0 required
component_below _ none = false

-- The loop over the components, from index `i`, up to the first that is below.
unfoldable pub components_ok :
    (below : Option ℕ → Option ℕ → Bool) → (cpu_svn : List ℕ) → (i : ℕ) → List (Option ℕ) → Bool
components_ok below cpu_svn i [] = true
components_ok below cpu_svn i (required ∷ more) =
    not (below (get_elem? cpu_svn i) required) && components_ok below cpu_svn (suc i) more

-- An array of components, if there is one.
unfoldable pub array_ok : List ℕ → Option (List (Option ℕ)) → Bool
array_ok cpu_svn none = true
array_ok cpu_svn (some components) = components_ok component_below cpu_svn 0 components

unfoldable pub cpu_ok : List ℕ → (is_tdx : Bool) → TcbLevel → Bool
cpu_ok cpu_svn false level =
    components_ok key_below cpu_svn 0 level.sgx_components
    && array_ok cpu_svn level.sgxtcbcomponents
cpu_ok cpu_svn true level = array_ok cpu_svn level.tdxtcbcomponents

-- The loop over the levels, which stops at the first that the platform meets.
unfoldable pub status_of_levels : List ℕ → ℕ → Bool → List TcbLevel → Text
status_of_levels cpu_svn pce_svn is_tdx [] = codes "OutOfDate"
status_of_levels cpu_svn pce_svn is_tdx (level ∷ levels) =
    let rest = status_of_levels cpu_svn pce_svn is_tdx levels in
    if cpu_ok cpu_svn is_tdx level && pce_ok pce_svn level.pcesvn then level.tcb_status else rest

unfoldable pub get_tcb_status : IntelTcbInfo → List ℕ → ℕ → Bool → Text
get_tcb_status info cpu_svn pce_svn is_tdx = status_of_levels cpu_svn pce_svn is_tdx info.tcb_levels

-- The TCB service and the date parser: `fetch` of the information on a kind of platform and its
-- fmspc, `none` for an answer that is not ok; `Date.parse`, `none` for NaN.
pub record TcbService : Type 0 where
  pub fetch : (is_tdx : Bool) → Text → Result (Option IntelTcbInfo)
  pub parse_date : Text → Option ℕ

-- `a <= b` on times that may be NaN
unfoldable pub date_le : Option ℕ → Option ℕ → Bool
date_le (some a) (some b) = leb a b
date_le _ _ = false

module _ (service : TcbService) where
  unfoldable pub is_tcb_info_fresh : IntelTcbInfo → ℕ → Bool
  is_tcb_info_fresh info current_time =
      date_le (service.parse_date info.issue_date) (some current_time)
      && date_le (some current_time) (service.parse_date info.next_update)

  -- `resp.json()`, or the error for an answer that is not ok.
  unfoldable pub require_response : Option IntelTcbInfo → Result IntelTcbInfo
  require_response none = err fetch_failed
  require_response (some info) = ok info

  unfoldable pub is_acceptable_status : Text → Bool
  is_acceptable_status status =
      list_eq status (codes "UpToDate") || list_eq status (codes "ConfigurationNeeded")

  -- `verifyTcb`, at the time `now`; the quote is one of TDX if its header says so.
  unfoldable pub verify_tcb :
      (now : ℕ) (fmspc : Text) (cpu_svn : List ℕ) (pce_svn tee_type : ℕ) → Result Bool
  verify_tcb now fmspc cpu_svn pce_svn tee_type = do
    let is_tdx = tee_type == 129
    response ← service.fetch is_tdx fmspc
    info ← require_response response
    let status = get_tcb_status info cpu_svn pce_svn is_tdx
    ok (is_tcb_info_fresh info now && is_acceptable_status status)
