-- ===== src/Quote/Header.antt =====
-- The header of every quote: `QuoteHeader` of packages/qvl/src/structs.ts.
use teekit.Common.{ℕ, [], ◌∷◌}
use teekit.Struct.{Struct, Fields, uint, buffer}

abbrev pub quote_header : Struct
quote_header =
    uint "version" 2
    ∷ uint "att_key_type" 2
    ∷ uint "tee_type" 4
    ∷ uint "qe_svn" 2
    ∷ uint "pce_svn" 2
    ∷ buffer "qe_vendor_id" 16
    ∷ buffer "user_data" 20
    ∷ []

abbrev pub QuoteHeader : Type 0
QuoteHeader = Fields quote_header

abbrev pub version : QuoteHeader → ℕ
version h = h.0

abbrev pub att_key_type : QuoteHeader → ℕ
att_key_type h = h.1.0

abbrev pub tee_type : QuoteHeader → ℕ
tee_type h = h.1.1.0

abbrev pub pce_svn : QuoteHeader → ℕ
pce_svn h = h.1.1.1.1.0
