-- ===== src/Domain/Entities.antt =====
-- internal/domain/user.go, team.go, room.go and match.go, as far as the authorization of a command
-- reads them. Strings that no constant names are the constructor `unknown`.
use rct_hub_backend.Base.{
  ◌≡◌, ◌↔◌, Bool, true, false, Text, List, [], ◌∷◌, Option, none, some, ◌==◌, Eq, contains, arith,
}
use rct_hub_backend.Base.Int.{ℤ, int_Eq}

-- bson.ObjectID as its twelve bytes.
abbrev pub ObjectId : Type 0
ObjectId = Text

abbrev pub nil_object_id : ObjectId
nil_object_id = 0 ∷ 0 ∷ 0 ∷ 0 ∷ 0 ∷ 0 ∷ 0 ∷ 0 ∷ 0 ∷ 0 ∷ 0 ∷ 0 ∷ []

pub data UserRole : Type 0 where
  player strategist referee streamer admin unknown : UserRole

abbrev pub user_role_eq : UserRole → UserRole → Bool
user_role_eq UserRole.player UserRole.player = true
user_role_eq UserRole.strategist UserRole.strategist = true
user_role_eq UserRole.referee UserRole.referee = true
user_role_eq UserRole.streamer UserRole.streamer = true
user_role_eq UserRole.admin UserRole.admin = true
user_role_eq UserRole.unknown UserRole.unknown = true
user_role_eq _ _ = false

pub user_role_eq_iff : (a b : UserRole) → (user_role_eq a b ≡ true) ↔ (a ≡ b)
user_role_eq_iff a b = ground arith

instance abbrev pub user_role_Eq : Eq UserRole
user_role_Eq = record { same = user_role_eq; same_iff = user_role_eq_iff }

pub data VerifyStatus : Type 0 where
  verified pending unverified unknown : VerifyStatus

-- user.VerifyStatus == domain.Verified
unfoldable pub is_verified : VerifyStatus → Bool
is_verified VerifyStatus.verified = true
is_verified _ = false

pub record User : Type 0 where
  pub id : ObjectId
  pub verify_status : VerifyStatus
  pub is_banned : Bool
  pub online_id : ℤ
  pub roles : List UserRole

unfoldable pub has_role : User → UserRole → Bool
has_role user role = contains role user.roles

pub record Team : Type 0 where
  pub id : ObjectId
  pub leader_id : Option ℤ
  pub strategist_id : Option ℤ
  pub players : List ℤ

-- The sides of room.go, whose strings differ from the engine's; `other` is any other string.
pub data Side : Type 0 where
  red blue other : Side

unfoldable pub side_by_assignment : (red blue : Bool) → Option Side
side_by_assignment true false = some Side.red
side_by_assignment false true = some Side.blue
side_by_assignment _ _ = none

-- team != nil && team.field != nil && *team.field == osuID
abbrev pub is_assigned : (Team → Option ℤ) → Option Team → ℤ → Bool
is_assigned field none osu_id = false
is_assigned field (some team) osu_id = elim (field team) [ none ↦ false | some id ↦ id == osu_id ]

unfoldable pub strategist_side : (red_team blue_team : Option Team) (osu_id : ℤ) → Option Side
strategist_side red_team blue_team osu_id =
    side_by_assignment (is_assigned (λ team. team.strategist_id) red_team osu_id)
      (is_assigned (λ team. team.strategist_id) blue_team osu_id)

unfoldable pub captain_side : (red_team blue_team : Option Team) (osu_id : ℤ) → Option Side
captain_side red_team blue_team osu_id =
    side_by_assignment (is_assigned (λ team. team.leader_id) red_team osu_id)
      (is_assigned (λ team. team.leader_id) blue_team osu_id)

pub data RoomType : Type 0 where
  private_room casual match_room unknown : RoomType

-- roomType == RoomTypeMatch
unfoldable pub is_match_room : RoomType → Bool
is_match_room RoomType.match_room = true
is_match_room _ = false

pub record RoomSettings : Type 0 where
  pub red_team_id : Option ObjectId
  pub blue_team_id : Option ObjectId

pub record Room : Type 0 where
  pub id : ObjectId
  pub room_type : RoomType
  pub referee_user_id : Option ℤ
  pub settings : RoomSettings
  pub match_id : Option ObjectId

pub data MatchStatus : Type 0 where
  pending ready active finished canceled unknown : MatchStatus

-- match.Status == MatchStatusReady
unfoldable pub is_ready : MatchStatus → Bool
is_ready MatchStatus.ready = true
is_ready _ = false

pub record Match : Type 0 where
  pub id : ObjectId
  pub room_id : ObjectId
  pub room_type : RoomType
  pub status : MatchStatus
