-- ===== src/Node/Pairing.antt =====
-- modules/node/pairing.go: the store of node pairings, its rows in two lists.
pub mod Redeem
use Prim.Native.Char.{Char, code}
use cyntr.Common.{
  ℕ, String, ◌≡◌, refl, Bool, true, false, ◌||◌, List, [], ◌∷◌, ◌++◌, map, Option, none, some, ◌==◌,
  if◌then◌else◌, string_eq, nat_eq, any, select,
}
use cyntr.Common.Text.{trim_space}
use cyntr.Node.Protocol.{all_capabilities}
use cyntr.Common.{not}

pub record Waiting : Type 0 where
  pub code : String
  pub tenant : String
  pub node : String
  pub capabilities : String
  pub created_at : ℕ

pub record Paired : Type 0 where
  pub tenant : String
  pub node : String
  pub capabilities : String
  pub created_at : ℕ

pub record NodeStore : Type 0 where
  pub pending : List Waiting
  pub pairings : List Paired

pub record Pairing : Type 0 where
  pub tenant : String
  pub node : String
  pub allowed_caps : List String

abbrev pub append_text : String → String → String
append_text String.[] t = t
append_text (String.◌∷◌ c s) t = String.◌∷◌ c (append_text s t)

-- strings.Join(caps, ",")
unfoldable pub join_caps : List String → String
join_caps [] = ""
join_caps (c ∷ []) = c
join_caps (c ∷ d ∷ cs) = append_text c (append_text "," (join_caps (d ∷ cs)))

abbrev pub cons_first : Char → List String → List String
cons_first c [] = String.◌∷◌ c String.[] ∷ []
cons_first c (p ∷ ps) = String.◌∷◌ c p ∷ ps

-- strings.Split(s, ",")
unfoldable pub split_comma : String → List String
split_comma String.[] = String.[] ∷ []
split_comma (String.◌∷◌ c s) =
    let rest = split_comma s in if code c == 44 then String.[] ∷ rest else cons_first c rest

abbrev pub keep_trimmed : List String → List String
keep_trimmed [] = []
keep_trimmed (p ∷ ps) =
    let rest = keep_trimmed ps in if trim_space p == "" then rest else trim_space p ∷ rest

unfoldable pub split_caps : String → List String
unfolding split_comma
split_caps s = if s == "" then [] else keep_trimmed (split_comma s)

-- SELECT … FROM node_pending WHERE code=?
unfoldable pub find_pending : String → List Waiting → Option Waiting
find_pending code [] = none
find_pending code (w ∷ ws) = if w.code == code then some w else find_pending code ws

abbrev pub or_all : List String → List String
or_all [] = all_capabilities
or_all (c ∷ cs) = c ∷ cs

-- IssueCode: a code that stands in the table violates the primary key. `ok` says whether the
-- database works; none is an error.
unfoldable pub issue_code :
    String → ℕ → Bool → String → String → List String → NodeStore → NodeStore × Option String
unfolding join_caps find_pending
issue_code drawn now ok tenant node allowed store =
    if tenant == "" || node == "" then (store, none) else elim (find_pending drawn store.pending) [
      | some w ↦ (store, none)
      | none ↦
          (if ok
            then (
              record store {
                pending =
                    store.pending
                    ++ (record {
                      code = drawn;
                      tenant = tenant;
                      node = node;
                      capabilities = join_caps (or_all allowed);
                      created_at = now;
                    }
                        ∷ []);
              },
              some drawn,
            )
            else (store, none))
    ]

-- INSERT … ON CONFLICT(tenant, node) DO UPDATE SET capabilities, created_at
unfoldable pub put_pairing : String → String → String → ℕ → List Paired → List Paired
put_pairing tenant node caps now [] =
    record { tenant = tenant; node = node; capabilities = caps; created_at = now } ∷ []
put_pairing tenant node caps now (p ∷ ps) =
    let rest = put_pairing tenant node caps now ps in
    if p.tenant == tenant
    then (if p.node == node
        then record p { capabilities = caps; created_at = now } ∷ ps
        else p ∷ rest)
    else p ∷ rest

-- The database's answers to Redeem: whether the row is read, the pairing stored, the code deleted.
pub record Answers : Type 0 where
  pub reads : Bool
  pub stores : Bool
  pub deletes : Bool

abbrev pub redeem_found :
    Answers → ℕ → String → Option Waiting → NodeStore → NodeStore × Option Pairing
redeem_found db now code none store = (store, none)
redeem_found db now code (some w) store =
    if db.stores
    then (
      record {
        pairings = put_pairing w.tenant w.node w.capabilities now store.pairings;
        pending =
            if db.deletes then select (λ v. not (v.code == code)) store.pending else store.pending;
      },
      some (record { tenant = w.tenant; node = w.node; allowed_caps = split_caps w.capabilities }),
    )
    else (store, none)

unfoldable pub redeem : Answers → ℕ → String → NodeStore → NodeStore × Option Pairing
unfolding find_pending split_caps put_pairing
redeem db now text store =
    let code = trim_space text in
    if code == ""
    then (store, none)
    else if db.reads
    then redeem_found db now code (find_pending code store.pending) store
    else (store, none)

-- AllowedCaps: none where the node is not paired.
unfoldable pub allowed_caps : String → String → List Paired → Option (List String)
unfolding split_caps
allowed_caps tenant node [] = none
allowed_caps tenant node (p ∷ ps) =
    let rest = allowed_caps tenant node ps in
    if p.tenant == tenant
    then (if p.node == node then some (split_caps p.capabilities) else rest)
    else rest
