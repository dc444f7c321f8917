-- ===== src/Robbing.antt =====
-- What RobPiece of internal/matchengine/engine.go does to the field, seen as a map.
use rct_hub_backend.Base.{
  ℕ, ◌≡◌, true, false, none, some, ◌==◌, Text, List, [], ◌∷◌, Option, lookup, text_Eq, arith,
  if◌then◌else◌, refl, subst, ap, ◌∙◌, contains, Bool-cases, inl, inr, Option-cases,
}
use rct_hub_backend.Model.Kinds.{TeamSide}
use rct_hub_backend.Model.Errors.{ok}
use rct_hub_backend.Model.Timer.{Time}
use rct_hub_backend.Model.State.{State, Actor, Cell, BoardPiece, Board}
use rct_hub_backend.Model.Events.{Event}
use rct_hub_backend.Board.{piece_at, piece_by_id, mark_dead, bury, set_owner, won_by}
use rct_hub_backend.Engine.Robbery.{flatten_sacrifice_sets, board_after_robbery}
use rct_hub_backend.Engine.Play.{rob_piece, after_robbery}
use rct_hub_backend.Engine.Terminal.{start_forced_tb_preparation}
use rct_hub_backend.Effects.Play.{rob_piece-effect}
use rct_hub_backend.Sets.{concat, distinct, flatten_sacrifice_sets-distinct}

-- The cells of a field; those of a Go map are distinct.
unfoldable pub cells : Board → List Cell
cells [] = []
cells ((cell, _) ∷ b) = cell ∷ cells b

-- A function of the piece of each cell.
unfoldable pub on_piece : (BoardPiece → BoardPiece) → Option BoardPiece → Option BoardPiece
on_piece f none = none
on_piece f (some piece) = some (f piece)

lookup-mark_dead :
    (ids : List Text) (b : Board) (cell : Cell)
    → lookup cell (mark_dead ids b) ≡ on_piece (bury ids) (lookup cell b)
unfolding lookup mark_dead on_piece
lookup-mark_dead ids [] cell = refl
lookup-mark_dead ids ((c, p) ∷ b) cell = ground (arith, lookup-mark_dead ids b cell)

bury_id : (ids : List Text) (p : BoardPiece) → (bury ids p).id ≡ p.id
unfolding bury
bury_id ids p = ground arith

piece_by_id-mark_dead :
    (ids : List Text) (id : Text) (b : Board) {cell : Cell} {p : BoardPiece}
    → piece_by_id id b ≡ some (cell, p)
    → piece_by_id id (mark_dead ids b) ≡ some (cell, bury ids p)
unfolding piece_by_id mark_dead
piece_by_id-mark_dead ids id [] h = cc
piece_by_id-mark_dead ids id ((c, q) ∷ b) {cell} {p} h =
    ground (arith, piece_by_id-mark_dead ids id b {cell = cell} {p = p}, bury_id ids q)

cells-mark_dead : (ids : List Text) (b : Board) → cells (mark_dead ids b) ≡ cells b
unfolding cells mark_dead
cells-mark_dead ids [] = refl
cells-mark_dead ids ((c, p) ∷ b) = ap (λ r. c ∷ r) (cells-mark_dead ids b)

lookup-missing : (cell : Cell) (b : Board) → contains cell (cells b) ≡ false → lookup cell b ≡ none
unfolding lookup cells contains
lookup-missing cell [] h = refl
lookup-missing cell ((c, p) ∷ b) h = ground (arith, lookup-missing cell b)

cell-member :
    (id : Text) (b : Board) {cell : Cell} {p : BoardPiece}
    → piece_by_id id b ≡ some (cell, p)
    → contains cell (cells b) ≡ true
unfolding piece_by_id cells contains
cell-member id [] h = cc
cell-member id ((c, q) ∷ b) {cell} {p} h =
    ground (arith, cell-member id b {cell = cell} {p = p}, text_Eq.same_iff c cell)

-- A cell of the rest is not the first one.
apart_cells :
    (id : Text) (c : Cell) (b : Board) {cell : Cell} {p : BoardPiece}
    → contains c (cells b) ≡ false
    → piece_by_id id b ≡ some (cell, p)
    → (c == cell) ≡ false
apart_cells id c b {cell} {p} d f = ground (arith, cell-member id b f, text_Eq.same_iff c cell)

set_owner_found :
    (id : Text) (team : TeamSide) (b : Board) {cell : Cell} {p : BoardPiece} {b' : Board}
    → piece_by_id id b ≡ some (cell, p)
    → set_owner id team b ≡ some b'
    → (other : Cell) → distinct (cells b) ≡ true
    → lookup other b' ≡ (if cell == other then some (won_by team p) else lookup other b)
unfolding lookup set_owner piece_by_id cells distinct
set_owner_found id team [] f h other d = cc
set_owner_found id team ((c, q) ∷ b) {cell} {p} {b'} f h other d = elim (Bool-cases (q.id == id)) [
  | inl e ↦ ground (arith, e)
  | inr e ↦ elim (Option-cases (set_owner id team b)) [
    | inl missing ↦ absurd (ground (arith, missing, e))
    | inr (rest, found) ↦
        let inside : piece_by_id id b ≡ some (cell, p) = ground (arith, e) in
        ground (
          arith,
          e,
          found,
          set_owner_found id team b inside found other (ground arith),
          apart_cells id c b {cell = cell} {p = p} (ground arith) inside,
          text_Eq.same_iff c other,
          text_Eq.same_iff cell other,
          text_Eq.same_iff c cell,
        )
  ]
]

piece_by_id_lem :
    (id : Text) (b : Board) {cell : Cell} {p : BoardPiece}
    → piece_by_id id b ≡ some (cell, p)
    → p.id ≡ id
unfolding piece_by_id
piece_by_id_lem id [] h = cc
piece_by_id_lem id ((c, q) ∷ b) {cell} {p} h =
    ground (arith, piece_by_id_lem id b {cell = cell} {p = p}, text_Eq.same_iff q.id id)

won_by-bury :
    (ids : List Text) (team : TeamSide) (p : BoardPiece) → won_by team (bury ids p) ≡ won_by team p
unfolding won_by bury
won_by-bury ids team p = ground arith

owned :
    (b : Board) (team : TeamSide) (id : Text) (ids : List Text) (len : ℕ) {b' : Board}
    → board_after_robbery b team id ids len ≡ some b'
    → set_owner id team (mark_dead ids b) ≡ some b'
unfolding board_after_robbery
owned b team id ids len h = ground arith

after_robbery_board :
    (s : State) (team : TeamSide) (now : Time) → (after_robbery s team now).0.board ≡ s.board
unfolding after_robbery start_forced_tb_preparation
after_robbery_board s team now = ground arith

flattened :
    (sets : List (List Text)) {ids : List Text}
    → flatten_sacrifice_sets sets ≡ some ids
    → (distinct (concat sets) ≡ true) × (ids ≡ concat sets)
flattened sets h = ground (arith, flatten_sacrifice_sets-distinct sets)

board_lem :
    (b : Board) (id : Text) (team : TeamSide) (ids : List Text) {cell : Cell} {p : BoardPiece}
    {b' : Board}
    → distinct (cells b) ≡ true
    → piece_by_id id b ≡ some (cell, p)
    → set_owner id team (mark_dead ids b) ≡ some b'
    → (other : Cell)
    → piece_at b' other
      ≡ (if cell == other then some (won_by team p) else on_piece (bury ids) (piece_at b other))
unfolding piece_at
board_lem b id team ids {cell} {p} d f h other = ground (
  arith,
  set_owner_found id team (mark_dead ids b) (piece_by_id-mark_dead ids id b f) h other
      (ap distinct (cells-mark_dead ids b) ∙ d),
  lookup-mark_dead ids b other,
  won_by-bury ids team p,
)

-- On a field whose cells are distinct, an accepted RobPiece names sets in which no id occurs twice
-- and a piece on the field; afterwards the cell of that piece holds it as won by the robbing team,
-- and every other cell holds what it held, dead where its id is in one of the sets.
pub rob_piece-piece_at :
    (s : State) (actor : Actor) (target : Text) (sets : List (List Text)) (now : Time)
    {r : State × List Event}
    → distinct (cells s.board) ≡ true
    → rob_piece s actor target sets now ≡ ok r
    → (distinct (concat sets) ≡ true)
      × (found : Cell × BoardPiece) × (piece_by_id target s.board ≡ some found)
      × ((other : Cell)
          → piece_at r.0.board other ≡ (
              if found.0 == other
              then some (won_by s.active_team found.1)
              else on_piece (bury (concat sets)) (piece_at s.board other)))
rob_piece-piece_at s actor target sets now {r} d h =
    let (found, at, _, ids, flat, board, robbed, e) = rob_piece-effect s actor now target sets h in
    let (once, same) = flattened sets flat in
    let written = owned s.board s.active_team found.1.id ids _ robbed in
    let named : found.1.id ≡ target = piece_by_id_lem target s.board at in
    let kept : r.0.board ≡ board = ap (λ u. u.board) e ∙ after_robbery_board _ s.active_team now in
    let placed : set_owner target s.active_team (mark_dead (concat sets) s.board) ≡ some board =
      subst (λ i. set_owner target s.active_team (mark_dead i s.board) ≡ some board) same
        (subst (λ i. set_owner i s.active_team (mark_dead ids s.board) ≡ some board) named
          written) in
    (
      once,
      found,
      at,
      λ other.
          ap (λ b. piece_at b other) kept
          ∙ board_lem s.board target s.active_team (concat sets) d at placed other,
    )
