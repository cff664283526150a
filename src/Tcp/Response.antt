-- ===== src/Tcp/Response.antt =====
-- `build_response` of src/tcp_listener.rs. `none` is the panic of `copy_from_slice`.
pub mod Laws
use realtime_ingestion.Base.{
  ℕ, ◌+◌, Bool, ◌&&◌, not, Option, none, some, [], ◌++◌, Bytes, leb, ◌==◌, if◌then◌else◌, length,
  is_empty, take, drop, ◌>>=◌,
}
use realtime_ingestion.Text.{Text, codes, text_eq, as_bytes}

unfoldable pub response_type : Text → Text
unfolding text_eq
response_type msg_type =
    if text_eq msg_type (codes "0100")
    then codes "0110"
    else if text_eq msg_type (codes "0200")
    then codes "0210"
    else msg_type

-- `resp[i..j].copy_from_slice(src)`, where `i <= j` and `j` is within `resp`.
unfoldable pub copy_from_slice : Bytes → ℕ → ℕ → Bytes → Option Bytes
copy_from_slice resp i j src =
    if i + length src == j then some (take i resp ++ (src ++ drop j resp)) else none

unfoldable pub build_response : Bytes → Text → Option Bytes
unfolding response_type copy_from_slice
build_response frame msg_type =
    let resp_type = response_type msg_type in
    (if leb 12 (length frame) && not (is_empty resp_type)
      then copy_from_slice frame 8 12 (as_bytes resp_type)
      else some frame)
    >>= λ resp. if leb 26 (length resp) then copy_from_slice resp 24 26 (codes "00") else some resp
