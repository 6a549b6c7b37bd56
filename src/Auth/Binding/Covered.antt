-- ===== src/Auth/Binding/Covered.antt =====
-- The reverse map knows every identity that is bound.
use cyntr.Common.{
  String, ◌≡◌, refl, sym, ◌∙◌, subst, List, [], ◌∷◌, ◌++◌, Option, none, some, false, ◌==◌,
  string_eq, str_iff, if◌then◌else◌, inl, inr, arith, Bool-cases, Option-cases, In, In-append_left,
  In-append_right,
}
use mathlib.Core.Option.{some-injective}
use cyntr.Common.Dict.{Dict, get, put, get-put, get-remove}
use cyntr.Auth.Binding.{
  ChannelIdentity, identity_beq, identity_beq_iff, identity_eq, IdentityBinding,
  new_identity_binding, identities_of, bind, resolve, remove_first, write_reverse, unbind_found,
  unbind, get_bindings,
}

pub data Op : Type 0 where
  do_bind : String → String → String → Op
  do_unbind : String → String → Op

unfoldable pub run : List Op → IdentityBinding → IdentityBinding
run [] ib = ib
run (do_bind channel user_id id ∷ ops) ib = run ops (bind channel user_id id ib)
run (do_unbind channel user_id ∷ ops) ib = run ops (unbind channel user_id ib)

abbrev Covered : IdentityBinding → Type 0
Covered ib =
    (ci : ChannelIdentity) (id : String)
    → get ci ib.bindings ≡ some id
    → In ci (identities_of id ib.reverse)

identities_of-put :
    (id wanted : String) (l : List ChannelIdentity) (m : Dict String (List ChannelIdentity))
    → identities_of wanted (put id l m) ≡ (if id == wanted then l else identities_of wanted m)
unfolding identities_of
identities_of-put id wanted l m = ground (arith, get-put id wanted l m)

bind-Covered :
    (channel user_id id : String) (ib : IdentityBinding)
    → Covered ib
    → Covered (bind channel user_id id ib)
unfolding bind
bind-Covered channel user_id id ib h x who e =
    let ci : ChannelIdentity = record { channel = channel; user_id = user_id } in
    let put_path = identities_of-put id who (identities_of id ib.reverse ++ (ci ∷ [])) ib.reverse in
    elim (Bool-cases (identity_beq ci x)) [
      | inl y ↦
          let e' : some id ≡ some who = rw y at (sym (get-put ci x id ib.bindings) ∙ e) in
          rw (put_path, (str_iff id who).1 (some-injective _ _ e'))
            (In-append_right x (identities_of id ib.reverse) (ci ∷ [])
              (inl (sym ((identity_beq_iff ci x).0 y))))
      | inr n ↦
          let e' : get x ib.bindings ≡ some who = rw n at (sym (get-put ci x id ib.bindings) ∙ e) in
          let i = h x who e' in
          rw put_path (elim (Bool-cases (id == who)) [
            | inl y ↦ rw y (
                In-append_left x (identities_of id ib.reverse) (ci ∷ []) (
                  subst (λ (k : String). In x (identities_of k ib.reverse))
                    (sym ((str_iff id who).0 y)) i))
            | inr m ↦ rw m i
          ])
    ]

remove_first-In :
    (ci x : ChannelIdentity) (l kept : List ChannelIdentity)
    → identity_beq ci x ≡ false
    → remove_first ci l ≡ some kept
    → In x l
    → In x kept
unfolding remove_first
remove_first-In ci x [] kept n e i = absurd i
remove_first-In ci x (y ∷ ys) kept n e i = elim (Bool-cases (identity_beq y ci)) [
  | inl t ↦ subst (In x) (some-injective _ _ (rw t at e)) (elim i [
    | inl q ↦ absurd (cc (n, (identity_beq_iff ci x).1 (sym (q ∙ (identity_beq_iff y ci).0 t))))
    | inr k ↦ k
  ])
  | inr f ↦ elim (Option-cases (remove_first ci ys)) [
    | inl m ↦ absurd (cc (rw (f, remove_first, m) at e))
    | inr (l, m) ↦
        subst (In x) (some-injective _ _ (rw (f, remove_first, m) at e))
          (elim i [ inl q ↦ inl q | inr k ↦ inr (remove_first-In ci x ys l n m k) ])
  ]
]

write_reverse-In :
    (ci x : ChannelIdentity) (id who : String) (o : Option (List ChannelIdentity))
    (m : Dict String (List ChannelIdentity))
    → identity_beq ci x ≡ false
    → remove_first ci (identities_of id m) ≡ o
    → In x (identities_of who m)
    → In x (identities_of who (write_reverse id o m))
write_reverse-In ci x id who none m n e i = i
write_reverse-In ci x id who (some l) m n e i =
    rw (identities_of-put id who l m) (elim (Bool-cases (id == who)) [
      | inl y ↦ rw y (
          remove_first-In ci x (identities_of id m) l n e
            (subst (λ (k : String). In x (identities_of k m)) (sym ((str_iff id who).0 y)) i))
      | inr f ↦ rw f i
    ])

unbind_found-Covered :
    (ci : ChannelIdentity) (o : Option String) (ib : IdentityBinding)
    → Covered ib
    → Covered (unbind_found ci o ib)
unbind_found-Covered ci none ib h x who e = h x who e
unbind_found-Covered ci (some id) ib h x who e = elim (Bool-cases (identity_beq ci x)) [
  | inl y ↦ absurd (cc (rw y at (sym (get-remove ci x ib.bindings) ∙ e)))
  | inr n ↦
      write_reverse-In ci x id who (remove_first ci (identities_of id ib.reverse)) ib.reverse n refl
        (h x who (rw n at (sym (get-remove ci x ib.bindings) ∙ e)))
]

run-Covered : (ops : List Op) (ib : IdentityBinding) → Covered ib → Covered (run ops ib)
unfolding run unbind
run-Covered [] ib h = h
run-Covered (do_bind channel user_id id ∷ ops) ib h =
    run-Covered ops (bind channel user_id id ib) (bind-Covered channel user_id id ib h)
run-Covered (do_unbind channel user_id ∷ ops) ib h =
    run-Covered ops (unbind channel user_id ib)
      (unbind_found-Covered (record { channel = channel; user_id = user_id }) _ ib h)

-- After any binds and unbinds from an empty binding, an identity that resolves to a principal stands
-- in that principal's list of GetBindings.
pub resolve-get_bindings :
    (ops : List Op) (channel user_id id : String)
    → resolve channel user_id (run ops new_identity_binding) ≡ some id
    → In
        (record { channel = channel; user_id = user_id })
        (get_bindings id (run ops new_identity_binding))
unfolding resolve get_bindings new_identity_binding get
resolve-get_bindings ops channel user_id id e =
    run-Covered ops new_identity_binding (λ ci who n. absurd (cc n)) _ id e
