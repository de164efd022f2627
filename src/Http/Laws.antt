-- ===== src/Http/Laws.antt =====
-- Who can read the status over HTTP.
use mathlib.Core.Path.{subst}
use qwen_autonomous_supervis.Prelude.{
  Bool-cases, str_eq, ◌&&◌, String, ◌≡◌, ◌⊎◌, inl, inr, refl, Bool, true, false, Option, none, some,
  if◌then◌else◌,
}
use qwen_autonomous_supervis.Errors.{Exception, Result, ok, err, type_error}
use qwen_autonomous_supervis.Prelude.Text.{◌+s◌}
use qwen_autonomous_supervis.Errors.Holds.{Holds, holds, Holds-ok}
use qwen_autonomous_supervis.Http.{
  Status, Response, Request, loopback, token_of, is_ascii, header_or_empty, unauthorized,
  answer_path, do_get, serve,
}

-- Whether a request has exactly this header. A missing one reads as the empty text.
abbrev pub has_header : String → Request → Bool
has_header header r = str_eq (header_or_empty r.authorization) header

-- The status is for the requests alone that send the token. Where the header or the token has a character outside
-- ASCII, no request is answered.
abbrev pub IsGuarded : (Status → Request → Result Response) → String → Type 0
IsGuarded handler token =
    (s : Status) (r : Request)
    → handler s r ≡ (
        if is_ascii (header_or_empty r.authorization) && is_ascii ("Bearer " +s token)
        then ok (if has_header ("Bearer " +s token) r then answer_path s r.path else unauthorized)
        else err (type_error "comparing strings with non-ASCII characters is not supported"))

do_get-IsGuarded : (token : String) → IsGuarded (do_get (some token)) token
unfolding do_get
do_get-IsGuarded token s r =
    elim (Bool-cases
      (is_ascii (header_or_empty r.authorization) && is_ascii ("Bearer " +s token))) [
        | inl y ↦ rw y refl
        | inr n ↦ rw n refl
      ]

started :
    (here : Bool) (token : Option String) (handler : Status → Request → Result Response)
    (message : Exception)
    → ◌≡◌ {A = Result (Status → Request → Result Response)}
        (elim token [
          | none ↦ if here then ok (do_get none) else err message
          | some t ↦ ok (do_get (some t))
        ])
        (ok handler)
    → (here ≡ true) ⊎ ((t : String) × (token ≡ some t) × IsGuarded handler t)
started true none handler message h = inl refl
started false none handler message h = cc
started here (some t) handler message h =
    inr (t, refl, Holds-ok (subst (Holds (λ f. IsGuarded f t)) h (holds (do_get-IsGuarded t))))

-- If the server starts, its host is a loopback address, or the environment has a token and the status is
-- answered to no request but those whose `Authorization` header is `Bearer ` and the token: any other request
-- is answered 401, whatever its path and the status are. If the header or the token has a character outside
-- ASCII, the request ends in a TypeError without an answer.
pub serve-IsGuarded :
    (lower : String → String) (is_loopback : String → Option Bool) (host : String)
    (environ : Option String) (handler : Status → Request → Result Response)
    → serve lower is_loopback host environ ≡ ok handler
    → (loopback lower is_loopback host ≡ true)
      ⊎ ((t : String) × (token_of environ ≡ some t) × IsGuarded handler t)
unfolding serve
serve-IsGuarded lower is_loopback host environ handler h =
    started (loopback lower is_loopback host) (token_of environ) handler _ h
