-- ===== src/Auth/Binding.antt =====
-- auth/binding.go: which channel identities belong to a principal.
pub mod Covered
use cyntr.Common.{
  ℕ, String, List, [], ◌∷◌, ◌++◌, ◌≡◌, ◌↔◌, Option, none, some, Bool, true, false, ◌&&◌, ◌==◌,
  HasEq, string_eq, str_iff, if◌then◌else◌, length, arith,
}
use cyntr.Common.Dict.{Dict, get, put, remove}

pub record ChannelIdentity : Type 0 where
  pub channel : String
  pub user_id : String

abbrev pub identity_beq : ChannelIdentity → ChannelIdentity → Bool
identity_beq a b = a.channel == b.channel && a.user_id == b.user_id

pub identity_beq_iff : (a b : ChannelIdentity) → (identity_beq a b ≡ true) ↔ (a ≡ b)
identity_beq_iff a b = ground (arith, str_iff a.channel b.channel, str_iff a.user_id b.user_id)

instance abbrev pub identity_eq : HasEq ChannelIdentity
identity_eq = record { equals = identity_beq; equals_iff = identity_beq_iff }

pub record IdentityBinding : Type 0 where
  pub bindings : Dict ChannelIdentity String
  pub reverse : Dict String (List ChannelIdentity)

unfoldable pub new_identity_binding : IdentityBinding
new_identity_binding = record { bindings = []; reverse = [] }

-- ib.reverse[id], which is nil where the key is missing
unfoldable pub identities_of : String → Dict String (List ChannelIdentity) → List ChannelIdentity
identities_of id m = elim (get id m) [ none ↦ [] | some l ↦ l ]

unfoldable pub bind : String → String → String → IdentityBinding → IdentityBinding
unfolding identities_of
bind channel user_id principal ib =
    let ci : ChannelIdentity = record { channel = channel; user_id = user_id } in
    record {
      bindings = put ci principal ib.bindings;
      reverse = put principal (identities_of principal ib.reverse ++ (ci ∷ [])) ib.reverse;
    }

unfoldable pub resolve : String → String → IdentityBinding → Option String
resolve channel user_id ib = get (record { channel = channel; user_id = user_id }) ib.bindings

-- The loop over the reverse list; none where it does not find the identity.
unfoldable pub remove_first : ChannelIdentity → List ChannelIdentity → Option (List ChannelIdentity)
remove_first ci [] = none
remove_first ci (x ∷ xs) =
    let rest = remove_first ci xs in
    if x == ci then some xs else elim rest [ none ↦ none | some l ↦ some (x ∷ l) ]

abbrev pub write_reverse :
    String
    → Option (List ChannelIdentity)
    → Dict String (List ChannelIdentity)
    → Dict String (List ChannelIdentity)
write_reverse id none m = m
write_reverse id (some l) m = put id l m

abbrev pub unbind_found : ChannelIdentity → Option String → IdentityBinding → IdentityBinding
unbind_found ci none ib = ib
unbind_found ci (some id) ib = record {
  bindings = remove ci ib.bindings;
  reverse = write_reverse id (remove_first ci (identities_of id ib.reverse)) ib.reverse;
}

unfoldable pub unbind : String → String → IdentityBinding → IdentityBinding
unfolding identities_of remove_first
unbind channel user_id ib =
    let ci : ChannelIdentity = record { channel = channel; user_id = user_id } in
    unbind_found ci (get ci ib.bindings) ib

unfoldable pub get_bindings : String → IdentityBinding → List ChannelIdentity
unfolding identities_of
get_bindings id ib = identities_of id ib.reverse

unfoldable pub count : IdentityBinding → ℕ
count ib = length ib.bindings
