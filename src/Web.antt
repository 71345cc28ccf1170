-- ===== src/Web.antt =====
-- AppOptR/src/web.rs: the web server on the loopback interface. This file has the tests on names; the
-- children have the settings, the reading of a request, its dispatch, and the functions of the API.
pub mod Settings
pub mod Request
pub mod Dispatch
pub mod Configure
pub mod Rules
pub mod Cloning
pub mod Suggest
pub mod Status
use app_opt_r_plus.Prelude.{ℕ, Bool, true, false, not, ◌&&◌, List, ltb, leb, is_empty, any}
use app_opt_r_plus.Prelude.Text.{
  Text, codes, trim, contains, contains_text, ends_with, byte_len, is_control,
}

unfoldable pub token_ok : Text → ℕ → Bool
token_ok s max =
    let t = trim s in
    not (is_empty t)
    && ltb (byte_len t) max
    && not (any is_control t)
    && not (contains t b'#')
    && not (contains_text t (codes "//"))

unfoldable pub pkg_shape_ok : Text → Bool
pkg_shape_ok pkg = not (contains pkg b'{' && ends_with pkg (codes "}"))

unfoldable pub valid_name : Text → Bool
valid_name s =
    not (is_empty s)
    && ltb (byte_len s) 64
    && not (contains s b'/')
    && not (any (λ b. leb b b' ') s)

unfoldable pub valid_path : Text → Bool
valid_path s = not (is_empty s) && ltb (byte_len s) 256 && not (any is_control s)
