-- ===== src/Quote/Region.antt =====
-- The signed regions of packages/qvl/src/structs.ts: what the signature of a quote is computed over.
use teekit.Common.{◌+◌}
use teekit.Result.{Result, ok, ◌>>=◌}
use teekit.Bytes.{Bytes, subarray, read_uint32_le}
use teekit.Struct.{size}
use teekit.Quote.Header.{quote_header}
use teekit.Quote.SgxBody.{sgx_report_body}
use teekit.Quote.TdxBody.{tdx_quote_body_1_0}

unfoldable pub get_sgx_signed_region : Bytes → Bytes
get_sgx_signed_region quote = subarray quote 0 (size quote_header + size sgx_report_body)

unfoldable pub get_tdx10_signed_region : Bytes → Bytes
get_tdx10_signed_region quote = subarray quote 0 (size quote_header + size tdx_quote_body_1_0)

unfoldable pub get_tdx15_signed_region : Bytes → Result Bytes
get_tdx15_signed_region quote = do
  body_size ← read_uint32_le quote (size quote_header + 2)
  ok (subarray quote 0 (size quote_header + 2 + 4 + body_size))
