-- ===== src/Launch/Env.antt =====
-- The environment of the subprocess, read as os/exec reads it: of several assignments to a variable
-- the last one counts.
use httptap.Shared.{
  ◌≡◌, refl, ap, ◌∙◌, Bool, true, false, ◌==◌, ◌||◌, if◌then◌else◌, Option, none, some, List, [],
  ◌∷◌, ◌++◌, All, Text, codes, same, arith,
}
use httptap.System.{Os}
use httptap.Launch.{LaunchCall, Args, World, env, ca_path, assigned}

-- The value of the variable, if the text assigns to it.
abbrev pub value_in : Text → Text → Option Text
value_in [] [] = none
value_in [] (c ∷ t) = if c == b'=' then some t else none
value_in (x ∷ name) [] = none
value_in (x ∷ name) (c ∷ t) = let rest = value_in name t in if x == c then rest else none

abbrev or_else : Option Text → Option Text → Option Text
or_else (some v) last = some v
or_else none last = last

abbrev pub getenv_from : Option Text → Text → List Text → Option Text
getenv_from last name [] = last
getenv_from last name (t ∷ l) = getenv_from (or_else (value_in name t) last) name l

abbrev pub getenv : Text → List Text → Option Text
getenv name l = getenv_from none name l

getenv_from-append :
    (last : Option Text) (name : Text) (l k : List Text)
    → getenv_from last name (l ++ k) ≡ getenv_from (getenv_from last name l) name k
getenv_from-append last name [] k = refl
getenv_from-append last name (t ∷ l) k =
    getenv_from-append (or_else (value_in name t) last) name l k

-- A text without an equals sign, as the name of a variable is.
abbrev has_equals : Text → Bool
has_equals [] = false
has_equals (c ∷ t) = c == b'=' || has_equals t

abbrev pub IsName : Text → Type 0
IsName t = has_equals t ≡ false

value_in-assignment :
    (name m v : Text)
    → IsName name
    → IsName m
    → value_in name (m ++ (codes "=" ++ v)) ≡ (if same name m then some v else none)
value_in-assignment [] [] v h k = refl
value_in-assignment [] (c ∷ m) v h k = ground arith
value_in-assignment (x ∷ name) [] v h k = ground arith
value_in-assignment (x ∷ name) (c ∷ m) v h k = ground (arith, value_in-assignment name m v)

-- An assignment of `v` keeps a variable that already has the value `v`; one to another variable
-- keeps any value.
assigned-same_value :
    (name m v : Text) → IsName name → IsName m → getenv_from (some v) name (assigned m v) ≡ some v
assigned-same_value name [] v h k = refl
assigned-same_value name (c ∷ m) v h k =
    ap (λ o. or_else o (some v)) (value_in-assignment name (c ∷ m) v h k)
    ∙ chosen (same name (c ∷ m))
  where
    chosen : (b : Bool) → or_else (if b then some v else none) (some v) ≡ some v
    chosen true = refl
    chosen false = refl

assigned-other :
    (last : Option Text) (name m v : Text)
    → IsName name
    → IsName m
    → same name m ≡ false
    → getenv_from last name (assigned m v) ≡ last
assigned-other last name [] v h k d = refl
assigned-other last name (c ∷ m) v h k d =
    ap (λ o. or_else o last)
      (value_in-assignment name (c ∷ m) v h k ∙ ap (λ (b : Bool). if b then some v else none) d)

-- The variables by which programs are told of a certificate authority.
abbrev pub ca_variables : List Text
ca_variables =
    codes "CURL_CA_BUNDLE"
    ∷ codes "REQUESTS_CA_BUNDLE"
    ∷ codes "SSL_CERT_FILE"
    ∷ codes "DENO_CERT"
    ∷ codes "NODE_EXTRA_CA_CERTS"
    ∷ []

module _ (os : Os LaunchCall) (w : World) (args : Args) (file_name : IsName w.cert_file_env)
    (dir_name : IsName w.cert_dir_env) where
  -- The two variables of OpenSSL come last.
  openssl_keeps :
      (name : Text)
      → IsName name
      → same name w.cert_dir_env ≡ false
      → let ca = ca_path os w args in
        getenv_from
          (some ca)
          name
          (assigned w.cert_file_env ca ++ assigned w.cert_dir_env w.tempdir)
        ≡ some ca
  openssl_keeps name h d =
      let ca = ca_path os w args in
      getenv_from-append (some ca) name (assigned w.cert_file_env ca) _
      ∙ ap (λ o. getenv_from o name (assigned w.cert_dir_env w.tempdir))
          (assigned-same_value name w.cert_file_env ca h file_name)
      ∙ assigned-other (some ca) name w.cert_dir_env w.tempdir h dir_name d

  -- In the environment of the subprocess, whatever the environment of httptap assigns, each of the
  -- five variables has as its value the file with the certificate authority, unless it is the
  -- variable by which OpenSSL is told of a directory. The two names that OpenSSL gives are names,
  -- without an equals sign.
  pub env_names_authority :
      All (λ name. same name w.cert_dir_env ≡ false) ca_variables
      → All (λ name. getenv name (env os w args) ≡ some (ca_path os w args)) ca_variables
  unfolding env
  env_names_authority (h0, (h1, (h2, (h3, (h4, h5))))) = (
    getenv_from-append none _ w.environ _ ∙ openssl_keeps (codes "CURL_CA_BUNDLE") refl h0,
    (
      getenv_from-append none _ w.environ _ ∙ openssl_keeps (codes "REQUESTS_CA_BUNDLE") refl h1,
      (
        getenv_from-append none _ w.environ _ ∙ openssl_keeps (codes "SSL_CERT_FILE") refl h2,
        (
          getenv_from-append none _ w.environ _ ∙ openssl_keeps (codes "DENO_CERT") refl h3,
          (
            getenv_from-append none _ w.environ _
                ∙ openssl_keeps (codes "NODE_EXTRA_CA_CERTS") refl h4,
            tt,
          ),
        ),
      ),
    ),
  )
