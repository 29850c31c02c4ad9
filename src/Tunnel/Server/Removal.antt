-- ===== src/Tunnel/Server/Removal.antt =====
-- Which connections are taken out of the map when a control socket is lost
-- (packages/tunnel/src/server.ts).
use teekit.Common.{
  ℕ, ◌≡◌, ◌≢◌, refl, ◌∙◌, arith, true, false, none, some, [], ◌∷◌, List, All, Text, list_eq,
  list_eq_iff, Bool-cases, inl, inr, ==_iff,
}
use teekit.Dict.{text_key, number_key, Dict, get, delete, member}
use teekit.Dict.Laws.{get-delete, same_sym}
use teekit.Dict.Keys.{IsUnique, delete-IsUnique}
use teekit.Dict.Entries.{All-delete, All-imp}
use teekit.Tunnel.Server.{Connection}
use teekit.Tunnel.Server.Close.{to_remove, delete_all}

pub All-delete_all :
    (P Q : Text × Connection → Type 0) (ids : List Text) (sockets : Dict Text Connection)
    → ((e : Text × Connection) → member e.0 ids ≡ false → P e → Q e)
    → All P sockets
    → All Q (delete_all ids sockets)
unfolding delete_all member
All-delete_all P Q [] sockets keep all = All-imp P Q sockets (λ e. keep e refl) all
All-delete_all P Q (id ∷ ids) sockets keep all =
    All-delete_all (λ e. P e × (list_eq id e.0 ≡ false)) Q ids (delete id sockets)
      (λ e out h. keep e (rw h.1 out) h.0)
      (All-delete P (λ e. P e × (list_eq id e.0 ≡ false)) id sockets
        (λ e apart h. (h, same_sym id e.0 ∙ apart)) all)

pub delete_all-IsUnique :
    (ids : List Text) (sockets : Dict Text Connection)
    → IsUnique sockets
    → IsUnique (delete_all ids sockets)
unfolding delete_all
delete_all-IsUnique [] sockets u = u
delete_all-IsUnique (id ∷ ids) sockets u =
    delete_all-IsUnique ids (delete id sockets) (delete-IsUnique id sockets u)

pub get-delete_all :
    (id : Text) (ids : List Text) (sockets : Dict Text Connection)
    → member id ids ≡ false
    → get id (delete_all ids sockets) ≡ get id sockets
unfolding delete_all member
get-delete_all id [] sockets out = refl
get-delete_all id (j ∷ ids) sockets out = elim (Bool-cases (list_eq j id)) [
  | inl same ↦ absurd (cc (rw same at out))
  | inr apart ↦
      get-delete_all id ids (delete j sockets) (rw apart at out)
      ∙ rw (get-delete id j sockets, apart) refl
]

-- Every connection of the socket is to be removed.
pub to_remove-All :
    (control_ws : ℕ) (entries : Dict Text Connection)
    → All
        (λ e. e.1.control_ws ≡ control_ws → member e.0 (to_remove control_ws entries) ≡ true)
        entries
unfolding to_remove member
to_remove-All control_ws [] = tt
to_remove-All control_ws ((id, c) ∷ entries) = (
  λ e. ground (arith, ==_iff c.control_ws control_ws, list_eq_iff id id),
  All-imp (λ e. e.1.control_ws ≡ control_ws → member e.0 (to_remove control_ws entries) ≡ true) _
      entries (λ e h mine. ground (arith, h mine)) (to_remove-All control_ws entries),
)

-- And no other.
to_remove-absent :
    (id : Text) (control_ws : ℕ) (entries : Dict Text Connection)
    → get id entries ≡ none
    → member id (to_remove control_ws entries) ≡ false
unfolding to_remove member get
to_remove-absent id control_ws [] absent = refl
to_remove-absent id control_ws ((j, c) ∷ entries) absent =
    ground (arith, to_remove-absent id control_ws entries)

pub to_remove-others :
    (id : Text) (control_ws : ℕ) (c : Connection) (entries : Dict Text Connection)
    → IsUnique entries
    → get id entries ≡ some c
    → c.control_ws ≢ control_ws
    → member id (to_remove control_ws entries) ≡ false
unfolding to_remove member get
to_remove-others id control_ws c [] u found apart = refl
to_remove-others id control_ws c ((j, d) ∷ entries) (fresh, u) found apart = ground (
  arith,
  list_eq_iff j id,
  to_remove-absent id control_ws entries,
  to_remove-others id control_ws c entries u,
  ==_iff d.control_ws control_ws,
)
