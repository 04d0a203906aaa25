-- ===== src/Gb/Digest.antt =====
-- internal/gb/digest.go: `digestResponse`. The digest `md5Hex` is a parameter. Case is folded on
-- ASCII alone: no other letter folds to one of "MD5", of "auth" or of the hexadecimal digits.
use iolink.Base.{
  ℕ, ◌+◌, ◌==◌, nat_eq, text_eq, Bool, ◌&&◌, ◌||◌, not, if◌then◌else◌, leb, Text, text, is_empty,
  ◌++◌, map, all, any, length, GoError, plain, gb, digest_invalid, Result, ok, ◌>>◌, guard,
}
use iolink.Gb.Peers.{valid_text}

pub record DigestAuthorization : Type 0 where
  pub username : Text
  pub realm : Text
  pub nonce : Text
  pub uri : Text
  pub response : Text
  pub algorithm : Text
  pub qop : Text
  pub cnonce : Text
  pub nc : Text

unfoldable pub to_lower : Text → Text
to_lower s = map (λ c. if leb 65 c && leb c 90 then c + 32 else c) s

-- `strings.EqualFold`.
unfoldable pub equal_fold : Text → Text → Bool
unfolding to_lower
equal_fold s t = to_lower s == to_lower t

abbrev is_hex_digit : ℕ → Bool
is_hex_digit c = (leb 48 c && leb c 57) || (leb 97 c && leb c 102) || (leb 65 c && leb c 70)

abbrev pub refused : GoError
refused = plain (gb digest_invalid)

abbrev joined : Text → Text → Text
joined s t = s ++ text ":" ++ t

unfoldable pub well_formed : DigestAuthorization → Text → Text → Bool
unfolding equal_fold
well_formed a method password =
    (is_empty a.algorithm || equal_fold a.algorithm (text "MD5"))
    && valid_text a.username 128
    && valid_text a.realm 128
    && valid_text a.nonce 256
    && valid_text a.uri 2048
    && valid_text method 32
    && leb (length password) 128
    && not (any (λ c. c == 13 || c == 10) a.uri)
    && not (is_empty a.response)

unfoldable pub valid_qop : DigestAuthorization → Bool
unfolding equal_fold
valid_qop a =
    equal_fold a.qop (text "auth")
    && valid_text a.cnonce 128
    && length a.nc == 8
    && all is_hex_digit a.nc

unfoldable pub digest_response : (Text → Text) → DigestAuthorization → Text → Text → Result Text
unfolding well_formed valid_qop
digest_response md5 a method password =
    let ha1 = md5 (joined a.username (joined a.realm password)) in
    let ha2 = md5 (joined method a.uri) in
    guard (well_formed a method password) refused
    >> (if is_empty a.qop
        then ok (md5 (joined ha1 (joined a.nonce ha2)))
        else guard (valid_qop a) refused
          >> ok (
              md5 (
                joined ha1
                  (joined a.nonce (joined a.nc (joined a.cnonce (joined (text "auth") ha2)))))))
