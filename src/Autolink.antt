-- ===== src/Autolink.antt =====
-- aws/lambdas/cognito_presignup_autolink/handler.py: the gate on sign-ups and the link of a federated
-- identity onto a native user. Cognito's answers and the environment variables are parameters.
pub mod Gate
pub mod Linking
use Prim.Native.Char.{code}
use Prim.Native.String.{[] as nil, ◌∷◌ as cons}
use qontinui_stack.Prelude.{
  ℕ, String, ◌≡◌, refl, Bool, true, false, not, ◌&&◌, ◌||◌, Option, none, some, List, [], ◌∷◌, elem,
  nat_eq, ◌==◌, if◌then◌else◌,
}
use qontinui_stack.Prelude.Assoc.{lookup, insert}
use qontinui_stack.Python.{concat, strip, is_empty}

pub record User : Type 0 where
  pub username : String
  pub user_status : Option String
  -- as a dictionary
  pub attributes : List (String × String)

pub record Event : Type 0 where
  pub user_name : Option String
  pub trigger : Option String
  -- as a dictionary
  pub attributes : List (String × String)
  pub response : List (String × Bool)

-- The arguments of `admin_link_provider_for_user` that vary.
pub record Link : Type 0 where
  pub pool : String
  pub destination : String
  pub provider : String
  pub subject : String

pub record Cloud : Type 0 where
  -- str.lower
  pub lower : String → String
  -- SIGNUP_ALLOWLIST and USER_POOL_ID
  pub allowlist : Option String
  pub pool : Option String
  -- list_users, none where the call raises
  pub list_users : (pool query : String) → Option (List User)
  -- whether admin_link_provider_for_user accepts
  pub accepts : Link → Bool

pub data Failure : Type 0 where
  not_invited missing_pool cognito_error : Failure

pub data Answer : Type 0 where
  returned : Event → Answer
  raised : Failure → Answer

abbrev trusted_providers : List String
trusted_providers = "Google" ∷ "MicrosoftEntra" ∷ []

abbrev or_empty : Option String → String
or_empty none = ""
or_empty (some s) = s

-- s.split("_", 1)[0]
unfoldable pub before_underscore : String → String
before_underscore nil = ""
before_underscore (cons c s) =
    let rest = before_underscore s in if nat_eq (code c) b'_' then "" else cons c rest

-- s.split("_", 1)[1], where there is an underscore
unfoldable pub after_underscore : String → String
after_underscore nil = ""
after_underscore (cons c s) =
    let rest = after_underscore s in if nat_eq (code c) b'_' then s else rest

unfoldable pub has_underscore : String → Bool
has_underscore nil = false
has_underscore (cons c s) = nat_eq (code c) b'_' || has_underscore s

-- `_provider_name_from_event`
unfoldable pub provider_name : Event → Option String
provider_name event =
    if has_underscore (or_empty event.user_name)
    then some (before_underscore (or_empty event.user_name))
    else none

abbrev same : Option String → String → Bool
same none s = false
same (some t) s = t == s

unfoldable pub is_external : Event → Bool
is_external event = same event.trigger "PreSignUp_ExternalProvider"

abbrev push_first : String → List String → List String
push_first c [] = c ∷ []
push_first c (s ∷ rest) = concat (c ∷ s ∷ []) ∷ rest

-- raw.split(",")
unfoldable pub split_commas : String → List String
split_commas nil = "" ∷ []
split_commas (cons c s) =
    let rest = split_commas s in
    if nat_eq (code c) b',' then "" ∷ rest else push_first (cons c nil) rest

abbrev entries : (String → String) → List String → List String
entries lower [] = []
entries lower (e ∷ rest) =
    if is_empty (strip e) then entries lower rest else lower (strip e) ∷ entries lower rest

module _ (cloud : Cloud) where
  -- `_allowlist`: none disables the gate.
  unfoldable pub allowlist : Option (List String)
  allowlist =
      let raw = strip (or_empty cloud.allowlist) in
      if is_empty raw then none else some (entries cloud.lower (split_commas raw))

  abbrev passes : Option (List String) → Option String → Bool
  passes none email = true
  passes (some allowed) email = elem (cloud.lower (strip (or_empty email))) allowed

  -- `_enforce_signup_allowlist`: whether it returns.
  unfoldable pub admits : Option String → Bool
  admits email = passes allowlist email

  abbrev attribute_truthy : Option String → Bool
  attribute_truthy none = false
  attribute_truthy (some s) = not (is_empty s)

  -- A confirmed native user whose own email is verified.
  unfoldable pub is_candidate : User → Bool
  is_candidate user =
      same user.user_status "CONFIRMED"
      && (not (attribute_truthy (lookup "identities" user.attributes))
          && same (lookup "email_verified" user.attributes) "true")

  unfoldable pub candidates : List User → List User
  candidates [] = []
  candidates (u ∷ rest) = if is_candidate u then u ∷ candidates rest else candidates rest

  abbrev pub only : List User → Option User
  only [] = none
  only (u ∷ []) = some u
  only (u ∷ v ∷ rest) = none

  abbrev email_filter : String → String
  email_filter email = concat ("email = \"" ∷ email ∷ "\"" ∷ [])

  abbrev match_among : Option (List User) → Option (Option User)
  match_among none = none
  match_among (some users) = some (only (candidates users))

  -- `_find_unique_native_match`, none where the query raises.
  unfoldable pub find_unique_native_match : (pool email : String) → Option (Option User)
  find_unique_native_match pool email = match_among (cloud.list_users pool (email_filter email))

  abbrev pub confirmed : Event → Event
  confirmed event = record event {
    response = insert "autoVerifyEmail" true (insert "autoConfirmUser" true event.response);
  }

  abbrev link_with : Event → Link → Answer × List Link
  link_with event link =
      (if cloud.accepts link then returned (confirmed event) else raised cognito_error, link ∷ [])

  abbrev on_match : Event → (pool provider : String) → Option (Option User) → Answer × List Link
  on_match event pool provider none = (raised cognito_error, [])
  on_match event pool provider (some none) = (returned event, [])
  on_match event pool provider (some (some user)) = link_with event (record {
    pool = pool;
    destination = user.username;
    provider = provider;
    subject = after_underscore (or_empty event.user_name);
  })

  abbrev on_provider : Event → (pool email : String) → Option String → Answer × List Link
  on_provider event pool email none = (returned event, [])
  on_provider event pool email (some provider) =
      if elem provider trusted_providers
      then on_match event pool provider (find_unique_native_match pool email)
      else (returned event, [])

  abbrev on_email : Event → (pool : String) → Option String → Answer × List Link
  on_email event pool none = (returned event, [])
  on_email event pool (some email) =
      if not (same (lookup "email_verified" event.attributes) "true") || is_empty email
      then (returned event, [])
      else on_provider event pool email (provider_name event)

  abbrev on_pool : Event → Option String → Answer × List Link
  on_pool event none = (raised missing_pool, [])
  on_pool event (some pool) = on_email event pool (lookup "email" event.attributes)

  abbrev federated : Event → Answer × List Link
  federated event = if is_external event then on_pool event cloud.pool else (returned event, [])

  abbrev pub is_admin : Event → Bool
  is_admin event = same event.trigger "PreSignUp_AdminCreateUser"

  -- `handler`, with the links that it asked Cognito for.
  unfoldable pub handler : Event → Answer × List Link
  handler event =
      if is_admin event || admits (lookup "email" event.attributes)
      then federated event
      else (raised not_invited, [])
