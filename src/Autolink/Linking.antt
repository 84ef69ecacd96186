-- ===== src/Autolink/Linking.antt =====
-- When aws/lambdas/cognito_presignup_autolink/handler.py links an identity.
use Prim.Native.Char.{Char, code}
use Prim.Native.String.{◌∷◌ as cons, ◌++◌ as append}
use qontinui_stack.Prelude.{
  sym, String, ◌≡◌, ap, ◌∙◌, ◌==◌, refl, true, false, ◌||◌, Option, none, some, List, [], ◌∷◌, inl,
  inr, All, elem, Bool-cases, arith,
}
use qontinui_stack.Prelude.Assoc.{lookup, insert, lookup-insert}
use qontinui_stack.Python.{is_empty}
use qontinui_stack.Autolink.Gate.{underscore-splits}
use qontinui_stack.Autolink.{
  User, Event, Link, Cloud, Answer, returned, raised, cognito_error, link_with, trusted_providers,
  or_empty, before_underscore, after_underscore, has_underscore, provider_name, same, is_external,
  admits, only, candidates, email_filter, match_among, find_unique_native_match, confirmed,
  on_match, on_provider, on_email, on_pool, is_admin, handler,
}

-- The link of a federated event onto a user.
abbrev pub link_of : Event → (pool provider : String) → User → Link
link_of event pool provider user = record {
  pool = pool;
  destination = user.username;
  provider = provider;
  subject = after_underscore (or_empty event.user_name);
}

-- The conditions of a link: the trigger is the external one, the gate lets the email in, the email
-- is there, not empty and verified, the provider is trusted, and of the users with the email
-- exactly one is a candidate, who is the destination.
pub record IsLinkable (cloud : Cloud) (event : Event) (link : Link) : Type 0 where
  pub email : String
  pub users : List User
  pub user : User
  pub external : is_external event ≡ true
  pub admitted : is_admin cloud event || admits cloud (some email) ≡ true
  pub has_email : lookup "email" event.attributes ≡ some email
  pub email_filled : is_empty email ≡ false
  pub verified : same (lookup "email_verified" event.attributes) "true" ≡ true
  pub has_pool : cloud.pool ≡ some link.pool
  pub from_provider : provider_name event ≡ some link.provider
  pub trusted : elem link.provider trusted_providers ≡ true
  pub listed : cloud.list_users link.pool (email_filter cloud email) ≡ some users
  pub unique : candidates cloud users ≡ user ∷ []
  pub made : link_of event link.pool link.provider user ≡ link

only_unique : (cloud : Cloud) (us : List User) (u : User) → only cloud us ≡ some u → us ≡ u ∷ []
only_unique cloud [] u h = ground arith
only_unique cloud (v ∷ []) u h = ground arith
only_unique cloud (v ∷ w ∷ rest) u h = ground arith

-- The event that comes back from a link: its response confirms the user and the email, and nothing
-- else of it is changed.
pub record IsConfirmed (event after : Event) : Type 0 where
  pub user : lookup "autoConfirmUser" after.response ≡ some true
  pub email : lookup "autoVerifyEmail" after.response ≡ some true
  pub others :
      (key : String)
      → (key == "autoConfirmUser") || (key == "autoVerifyEmail") ≡ false
      → lookup key after.response ≡ lookup key event.response
  pub user_name : after.user_name ≡ event.user_name
  pub trigger : after.trigger ≡ event.trigger
  pub attributes : after.attributes ≡ event.attributes

confirmed-IsConfirmed : (cloud : Cloud) (event : Event) → IsConfirmed event (confirmed cloud event)
confirmed-IsConfirmed cloud event =
    let first = insert "autoConfirmUser" true event.response in
    record {
      user =
          lookup-insert first "autoVerifyEmail" "autoConfirmUser" true
          ∙ lookup-insert event.response "autoConfirmUser" "autoConfirmUser" true;
      email = lookup-insert first "autoVerifyEmail" "autoVerifyEmail" true;
      others = λ key other. ground (
        arith,
        lookup-insert first "autoVerifyEmail" key true,
        lookup-insert event.response "autoConfirmUser" key true,
        other,
      );
      user_name = refl;
      trigger = refl;
      attributes = refl;
    }

handler-links_with :
    (cloud : Cloud) (event : Event) (link : Link)
    → IsLinkable cloud event link
    → handler cloud event ≡ link_with cloud event link
unfolding handler find_unique_native_match
handler-links_with cloud event link h =
    simp
      (
        h.has_email, h.admitted, h.external, h.has_pool, h.verified, h.email_filled,
        h.from_provider, h.trusted, h.listed, h.unique, h.made,
      )
      refl

-- Where the conditions of a link hold, the handler asks for that link alone. If Cognito accepts, the
-- event comes back with the user and the email confirmed and nothing else changed; if Cognito refuses,
-- the handler raises and confirms nobody.
pub handler-links :
    (cloud : Cloud) (event : Event) (link : Link)
    → IsLinkable cloud event link
    → ((handler cloud event).1 ≡ link ∷ [])
      × (cloud.accepts link ≡ true
          → (after : Event) × ((handler cloud event).0 ≡ returned after) × IsConfirmed event after)
      × (cloud.accepts link ≡ false → (handler cloud event).0 ≡ raised cognito_error)
handler-links cloud event link h =
    let same = handler-links_with cloud event link h in
    (
      ap (λ r. r.1) same,
      λ a. (
        confirmed cloud event,
        ap (λ r. r.0) same ∙ rw a refl,
        confirmed-IsConfirmed cloud event,
      ),
      λ a. ap (λ r. r.0) same ∙ rw a refl,
    )

-- What the stages of the handler ask for, from the match back to the event.
module _ (cloud : Cloud) (event : Event) where
  abbrev Linkable : Link → Type 0
  Linkable = IsLinkable cloud event

  on_match-Linkable :
      (pool provider : String) (m : Option (Option User))
      → ((u : User) → m ≡ some (some u) → Linkable (link_of event pool provider u))
      → All Linkable (on_match cloud event pool provider m).1
  on_match-Linkable pool provider none k = tt
  on_match-Linkable pool provider (some none) k = tt
  on_match-Linkable pool provider (some (some user)) k = (k user refl, tt)

  -- All that is known once the provider is seen.
  record IsProvided (pool email : String) (provider : String) : Type 0 where
    external : is_external event ≡ true
    admitted : is_admin cloud event || admits cloud (some email) ≡ true
    has_email : lookup "email" event.attributes ≡ some email
    email_filled : is_empty email ≡ false
    verified : same (lookup "email_verified" event.attributes) "true" ≡ true
    has_pool : cloud.pool ≡ some pool
    from_provider : provider_name event ≡ some provider
    trusted : elem provider trusted_providers ≡ true

  matched-Linkable :
      (pool email provider : String) (h : IsProvided pool email provider)
      (listed : Option (List User)) (u : User)
      → cloud.list_users pool (email_filter cloud email) ≡ listed
      → match_among cloud listed ≡ some (some u)
      → Linkable (link_of event pool provider u)
  matched-Linkable pool email provider h none u e m = ground arith
  matched-Linkable pool email provider h (some users) u e m = record {
    email = email;
    users = users;
    user = u;
    external = h.external;
    admitted = h.admitted;
    has_email = h.has_email;
    email_filled = h.email_filled;
    verified = h.verified;
    has_pool = h.has_pool;
    from_provider = h.from_provider;
    trusted = h.trusted;
    listed = e;
    unique = only_unique cloud (candidates cloud users) u (ground arith);
    made = refl;
  }

  AllLinkable : Answer × List Link → Type 0
  AllLinkable r = All Linkable r.1

  on_provider-linkable :
      (pool email : String) (p : Option String)
      → is_external event ≡ true
      → is_admin cloud event || admits cloud (some email) ≡ true
      → lookup "email" event.attributes ≡ some email
      → is_empty email ≡ false
      → same (lookup "email_verified" event.attributes) "true" ≡ true
      → cloud.pool ≡ some pool
      → provider_name event ≡ p
      → AllLinkable (on_provider cloud event pool email p)
  unfolding AllLinkable find_unique_native_match
  on_provider-linkable pool email none x g he ef v hp e = tt
  on_provider-linkable pool email (some provider) x g he ef v hp e =
      elim (Bool-cases (elem provider trusted_providers)) [
        | inr t ↦ rw t tt
        | inl t ↦ rw t (
            on_match-Linkable pool provider _ (λ u m.
              matched-Linkable pool email provider
                (record {
                  external = x;
                  admitted = g;
                  has_email = he;
                  email_filled = ef;
                  verified = v;
                  has_pool = hp;
                  from_provider = e;
                  trusted = t;
                })
                _ u refl m))
      ]

  on_email-linkable :
      (pool : String) (m : Option String)
      → is_external event ≡ true
      → is_admin cloud event || admits cloud m ≡ true
      → cloud.pool ≡ some pool
      → lookup "email" event.attributes ≡ m
      → AllLinkable (on_email cloud event pool m)
  unfolding AllLinkable
  on_email-linkable pool none x g hp he = tt
  on_email-linkable pool (some email) x g hp he =
      elim (Bool-cases (same (lookup "email_verified" event.attributes) "true")) [
        | inr v ↦ rw v tt
        | inl v ↦ rw v (elim (Bool-cases (is_empty email)) [
          | inl f ↦ rw f tt
          | inr f ↦ rw f (on_provider-linkable pool email _ x g he f v hp refl)
        ])
      ]

  on_pool-linkable :
      (p : Option String)
      → is_external event ≡ true
      → is_admin cloud event || admits cloud (lookup "email" event.attributes) ≡ true
      → cloud.pool ≡ p
      → AllLinkable (on_pool cloud event p)
  unfolding AllLinkable
  on_pool-linkable none x g hp = tt
  on_pool-linkable (some pool) x g hp = on_email-linkable pool _ x g hp refl

  -- Every link that the handler asks for satisfies the conditions of a link.
  pub handler-asks : All (IsLinkable cloud event) (handler cloud event).1
  unfolding handler AllLinkable
  handler-asks =
      elim (Bool-cases (is_admin cloud event || admits cloud (lookup "email" event.attributes))) [
        | inr g ↦ rw g tt
        | inl g ↦ rw g (elim (Bool-cases (is_external event)) [
          | inr x ↦ rw x tt
          | inl x ↦ rw x (on_pool-linkable cloud.pool x g refl)
        ])
      ]

-- The user name of an event is the link's provider, an underscore and the link's subject, and the
-- provider has no underscore.
pub record IsNamed (event : Event) (link : Link) : Type 0 where
  pub separator : Char
  pub underscore : code separator ≡ b'_'
  pub whole : append link.provider (cons separator link.subject) ≡ or_empty event.user_name
  pub provider : has_underscore link.provider ≡ false

Linkable-IsNamed :
    (cloud : Cloud) (event : Event) (link : Link) → IsLinkable cloud event link → IsNamed event link
unfolding provider_name
Linkable-IsNamed cloud event link h =
    let name = or_empty event.user_name in
    elim (Bool-cases (has_underscore name)) [
      | inr n ↦ cc (rw (n, provider_name) at h.from_provider)
      | inl n ↦
          let provider : before_underscore name ≡ link.provider =
            ground (arith, rw (n, provider_name) at h.from_provider) in
          let subject : after_underscore name ≡ link.subject = ap (λ l. l.subject) h.made in
          let (plain, (c, underscore, whole)) = underscore-splits name n in
          record {
            separator = c;
            underscore = underscore;
            whole =
                ap (λ p. append p (cons c link.subject)) (sym provider)
                ∙ ap (λ t. append (before_underscore name) (cons c t)) (sym subject)
                ∙ whole;
            provider = ap has_underscore (sym provider) ∙ plain;
          }
    ]

All-weaken :
    (P Q : Link → Type 0) → ((l : Link) → P l → Q l) → (ls : List Link) → All P ls → All Q ls
All-weaken P Q k [] h = tt
All-weaken P Q k (l ∷ ls) h = (k l h.0, All-weaken P Q k ls h.1)

-- Every link that the handler asks for takes the event's user name apart without loss: the provider
-- and the subject with an underscore between them are the user name again, and the provider has no
-- underscore.
pub handler-IsNamed : (cloud : Cloud) (event : Event) → All (IsNamed event) (handler cloud event).1
handler-IsNamed cloud event =
    All-weaken (IsLinkable cloud event) (IsNamed event) (Linkable-IsNamed cloud event)
      (handler cloud event).1 (handler-asks cloud event)
