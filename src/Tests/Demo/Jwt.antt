-- ===== src/Tests/Demo/Jwt.antt =====
-- Access tokens that spell their claims out, each text behind its length.
use udesa_x_users_api.Common.{
  ap, ℕ, ◌*◌, ◌≤◌, ◌≡◌, [], ◌∷◌, ◌++◌, Text, ◌==◌, text_eq, leb, length, take, drop,
  take-length-append, drop-length-append, if◌then◌else◌,
}
use udesa_x_users_api.Platform.{Claims, Decoded, valid, expired_signature, invalid_token, second}

abbrev frame : Text → Text → Text
frame s rest = length s ∷ s ++ rest

abbrev pub encode : Claims → Text
encode c =
    c.sub ∷ c.jti ∷ c.iat ∷ c.exp ∷ frame c.iss (frame c.role (frame c.handle c.profile_visibility))

abbrev unframe : Text → Text × Text
unframe [] = ([], [])
unframe (n ∷ t) = (take n t, drop n t)

unframe-frame : (s rest : Text) → unframe (frame s rest) ≡ (s, rest)
unframe-frame s rest = cc (take-length-append s rest, drop-length-append s rest)

abbrev claims_from : ℕ → ℕ → ℕ → ℕ → Text → Claims
claims_from sub jti iat exp t =
    let (iss, t₁) = unframe t in
    let (role, t₂) = unframe t₁ in
    let (handle, visibility) = unframe t₂ in
    record {
      iss = iss;
      sub = sub;
      role = role;
      handle = handle;
      profile_visibility = visibility;
      jti = jti;
      iat = iat;
      exp = exp;
    }

abbrev check : ℕ → Text → Claims → Decoded
check now issuer c =
    if leb (c.exp * second) now
    then expired_signature
    else if c.iss == issuer
    then valid c
    else invalid_token

abbrev pub decode : ℕ → Text → Text → Decoded
decode now issuer (sub ∷ jti ∷ iat ∷ exp ∷ t) = check now issuer (claims_from sub jti iat exp t)
decode now issuer _ = invalid_token

claims_from-frames :
    (c : Claims)
    → claims_from c.sub c.jti c.iat c.exp
        (frame c.iss (frame c.role (frame c.handle c.profile_visibility)))
      ≡ c
claims_from-frames c = rw (
  take-length-append, drop-length-append, take-length-append, drop-length-append,
  take-length-append, drop-length-append,
)

pub decode-encode :
    (now : ℕ) (issuer : Text) (c : Claims)
    → c.iat * second ≤ now
    → decode now issuer (encode c) ≡ (
        if leb (c.exp * second) now
        then expired_signature
        else if c.iss == issuer
        then valid c
        else invalid_token)
decode-encode now issuer c h = ap (check now issuer) (claims_from-frames c)
