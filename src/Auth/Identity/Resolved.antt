-- ===== src/Auth/Identity/Resolved.antt =====
-- The permissions that resolution gives a principal are those that HasPermission grants it.
use cyntr.Common.{
  ℕ, String, ◌≡◌, ◌↔◌, ◌⊎◌, refl, sym, subst, List, [], ◌∷◌, ◌++◌, Option, none, some, true, ◌==◌,
  string_eq, str_iff, inl, inr, Bool-cases, any, In, In-append_left, In-append_right,
  In-append-cases,
}
use cyntr.Common.Dict.{get}
use cyntr.Auth.{Permission, Principal, Role}
use cyntr.Auth.Rbac.{Rbac, permissions_of, role_permissions, grants, role_grants, has_permission}
use cyntr.Auth.Session.{
  Crypto, SessionManager, Authenticated, ok, error, validate_token, validate_api_key,
}
use cyntr.Auth.Identity.{
  add_unseen, collect, resolve_permissions, with_permissions, resolve, Message, Payload, answered,
  handle_resolve, resolve_payload, resolve_request, unknown,
}

any-In : (x : String) (xs : List String) → (any (λ (q : String). q == x) xs ≡ true) ↔ In x xs
unfolding any
any-In x [] = (λ h. absurd (cc h), λ h. absurd h)
any-In x (y ∷ ys) = (
  λ h. elim (Bool-cases (y == x)) [
    | inl t ↦ inl (sym ((str_iff y x).0 t))
    | inr f ↦ inr ((any-In x ys).0 (rw f at h))
  ],
  λ h. elim (Bool-cases (y == x)) [
    | inl t ↦ rw t refl
    | inr f ↦
        rw f
          (elim h [ inl e ↦ absurd (cc (f, (str_iff y x).1 (sym e))) | inr i ↦ (any-In x ys).1 i ])
  ],
)

In-one : (x y : String) → In x (y ∷ []) → x ≡ y
In-one x y (inl e) = e
In-one x y (inr h) = absurd h

add_unseen-In :
    (x : String) (perms more : List Permission)
    → In x (add_unseen perms more) ↔ (In x perms ⊎ In x more)
unfolding add_unseen
add_unseen-In x perms [] = (λ h. inl h, λ h. elim h [ inl i ↦ i | inr n ↦ absurd n ])
add_unseen-In x perms (p ∷ rest) = elim (Bool-cases (any (λ (q : Permission). q == p) perms)) [
  | inl t ↦
      let ih = add_unseen-In x perms rest in
      rw t (
        λ h. elim (ih.0 h) [ inl i ↦ inl i | inr i ↦ inr (inr i) ],
        λ h. ih.1 (elim h [
          | inl i ↦ inl i
          | inr (inl e) ↦ inl (subst (λ y. In y perms) (sym e) ((any-In p perms).0 t))
          | inr (inr i) ↦ inr i
        ]),
      )
  | inr f ↦
      let ih = add_unseen-In x (perms ++ (p ∷ [])) rest in
      rw f (
        λ h. elim (ih.0 h) [
          | inl i ↦ elim (In-append-cases x perms (p ∷ []) i) [
            | inl k ↦ inl k
            | inr k ↦ inr (inl (In-one x p k))
          ]
          | inr i ↦ inr (inr i)
        ],
        λ h. ih.1 (elim h [
          | inl i ↦ inl (In-append_left x perms (p ∷ []) i)
          | inr (inl e) ↦ inl (In-append_right x perms (p ∷ []) (inl e))
          | inr (inr i) ↦ inr i
        ]),
      )
]

grants-In : (x : Permission) (o : Option Role) → (grants x o ≡ true) ↔ In x (permissions_of o)
grants-In x none = (λ h. absurd (cc h), λ h. absurd h)
grants-In x (some role) = any-In x role.permissions

collect-In :
    (r : Rbac) (x : Permission) (perms : List Permission) (names : List String)
    → In x (collect r perms names) ↔ (In x perms ⊎ (any (role_grants r x) names ≡ true))
unfolding collect any role_permissions
collect-In r x perms [] = (λ h. inl h, λ h. elim h [ inl i ↦ i | inr n ↦ absurd (cc n) ])
collect-In r x perms (name ∷ names) =
    let ih = collect-In r x (add_unseen perms (role_permissions name r)) names in
    let one = add_unseen-In x perms (role_permissions name r) in
    let g = grants-In x (get name r) in
    elim (Bool-cases (grants x (get name r))) [
      | inl t ↦ rw t (λ h. inr refl, λ h. ih.1 (inl (one.1 (inr (g.0 t)))))
      | inr f ↦ rw f (
        λ h. elim (ih.0 h) [
          | inl i ↦ elim (one.0 i) [ inl k ↦ inl k | inr k ↦ absurd (cc (f, g.1 k)) ]
          | inr k ↦ inr k
        ],
        λ h. ih.1 (elim h [ inl i ↦ inl (one.1 (inl i)) | inr k ↦ inr k ]),
      )
    ]

pub resolve_permissions-In :
    (r : Rbac) (p : Principal) (x : Permission)
    → In x (resolve_permissions r p) ↔ (has_permission p x r ≡ true)
unfolding resolve_permissions has_permission
resolve_permissions-In r p x =
    let c = collect-In r x [] p.roles in
    (λ h. elim (c.0 h) [ inl i ↦ absurd i | inr k ↦ k ], λ h. c.1 (inr h))

-- The credential passes the validation of its scheme.
abbrev pub Presented : Crypto → ℕ → SessionManager → String → String → Principal → Type 0
Presented c now sm scheme credential p =
    ((scheme ≡ "bearer") × (validate_token c now credential sm ≡ ok p))
    ⊎ ((scheme ≡ "apikey") × (validate_api_key c credential sm ≡ ok p))

-- What it takes to be answered with a principal.
pub record Resolved (c : Crypto) (now : ℕ) (msg : Message) (sm : SessionManager) (r : Rbac)
    (p : Principal) : Type 0 where
  pub trusted : msg.source ≡ "proxy"
  pub scheme : String
  pub credential : String
  pub asked : msg.payload ≡ resolve_request scheme credential
  pub bare : Principal
  pub presented : Presented c now sm scheme credential bare
  pub same : p ≡ record bare { permissions = p.permissions }
  pub permitted : (x : Permission) → In x p.permissions ↔ (has_permission p x r ≡ true)

record Found (c : Crypto) (now : ℕ) (scheme credential : String) (sm : SessionManager) (r : Rbac)
    (p : Principal) : Type 0 where
  bare : Principal
  presented : Presented c now sm scheme credential bare
  resolved : record bare { permissions = resolve_permissions r bare } ≡ p

with_permissions-ok :
    (r : Rbac) (a : Authenticated) (p : Principal)
    → with_permissions r a ≡ ok p
    → (b : Principal) × (a ≡ ok b) × (record b { permissions = resolve_permissions r b } ≡ p)
with_permissions-ok r (ok b) p e = (b, refl, cc e)
with_permissions-ok r (error x) p e = absurd (cc e)

resolve-Found :
    (c : Crypto) (now : ℕ) (scheme credential : String) (sm : SessionManager) (r : Rbac)
    (p : Principal)
    → resolve c now scheme credential sm r ≡ ok p
    → Found c now scheme credential sm r p
unfolding resolve
resolve-Found c now scheme credential sm r p e = elim (Bool-cases (scheme == "bearer")) [
  | inl y ↦
      let w = with_permissions-ok r (validate_token c now credential sm) p (rw y at e) in
      record { bare = w.0; presented = inl ((str_iff scheme "bearer").0 y, w.1); resolved = w.2 }
  | inr n ↦ elim (Bool-cases (scheme == "apikey")) [
    | inl y ↦
        let w = with_permissions-ok r (validate_api_key c credential sm) p (rw (n, y) at e) in
        record { bare = w.0; presented = inr ((str_iff scheme "apikey").0 y, w.1); resolved = w.2 }
    | inr m ↦ absurd (cc (rw (n, m) at e))
  ]
]

Found-Resolved :
    (c : Crypto) (now : ℕ) (source scheme credential : String) (sm : SessionManager) (r : Rbac)
    (p : Principal)
    → source ≡ "proxy"
    → Found c now scheme credential sm r p
    → Resolved c now
        (record { source = source; payload = resolve_request scheme credential })
        sm
        r
        p
unfolding has_permission
Found-Resolved c now source scheme credential sm r p s f = record {
  trusted = s;
  scheme = scheme;
  credential = credential;
  asked = refl;
  bare = f.bare;
  presented = f.presented;
  same =
      subst (λ (q : Principal). q ≡ record f.bare { permissions = q.permissions }) f.resolved refl;
  permitted = λ x.
      subst (λ (q : Principal). In x q.permissions ↔ (has_permission q x r ≡ true)) f.resolved
        (resolve_permissions-In r f.bare x);
}

payload-Resolved :
    (c : Crypto) (now : ℕ) (source : String) (payload : Payload) (sm : SessionManager) (r : Rbac)
    (p : Principal)
    → source ≡ "proxy"
    → resolve_payload c now payload sm r ≡ answered (ok p)
    → Resolved c now (record { source = source; payload = payload }) sm r p
payload-Resolved c now source (resolve_request scheme credential) sm r p s e =
    Found-Resolved c now source scheme credential sm r p s
      (resolve-Found c now scheme credential sm r p (cc e))
payload-Resolved c now source unknown sm r p s e = absurd (cc e)

-- A message of auth.resolve is answered with a principal only if it comes from the proxy and its
-- credential passes the validation of its scheme, bearer or apikey. The principal is the validated
-- one but for its permissions, and those are exactly the permissions that HasPermission grants it.
pub handle_resolve-Resolved :
    (c : Crypto) (now : ℕ) (msg : Message) (sm : SessionManager) (r : Rbac) (p : Principal)
    → handle_resolve c now msg sm r ≡ answered (ok p)
    → Resolved c now msg sm r p
unfolding handle_resolve
handle_resolve-Resolved c now msg sm r p e = elim (Bool-cases (msg.source == "proxy")) [
  | inl y ↦
      payload-Resolved c now msg.source msg.payload sm r p ((str_iff msg.source "proxy").0 y)
        (rw y at e)
  | inr n ↦ absurd (cc (rw n at e))
]
