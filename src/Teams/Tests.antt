-- ===== src/Teams/Tests.antt =====
-- The theorems on teams at a team with an owner and one member.
use asset_harbor.Base.{
  ◌≡◌, refl, subst, false, some, [], ◌∷◌, arith, ok, ◌==◌, Bool-cases, inl, inr,
}
use asset_harbor.Base.Text.{codes}
use asset_harbor.Model.{
  User, Role, Team, TeamMember, TeamRole, CounterName, Principal, AuthScope, Db, empty_db, Image,
  MediaKind, MediaGroup, pos,
}
use asset_harbor.Access.{
  fresh_library_user, copy_auth_scope, bind_auth_scope, get_user, get_team, get_membership,
  can_manage_team, has_global_admin_scope, can_manage_image, can_watch_private, can_view_group,
}
use asset_harbor.Ids.{
  counter_value, get_counter, put_counter, next_id, allocate, live_max, next_team_id,
  next_team_member_id,
}
use asset_harbor.Teams.{
  create_team, add_member, remove_member, change_member_role, role_of, delete_team,
  dissolve_team_media, transfer_member_groups, get_member,
}
use asset_harbor.Teams.Owners.{IsOwned, OwnerRow}
use asset_harbor.Teams.Created.{create_team-IsOwned}
use asset_harbor.Teams.Revoked.{remove_member_revokes}
use asset_harbor.Teams.Reach.{Reach-IsOwned, here, next, creates, adds}
use asset_harbor.Teams.Dissolved.{dissolve_team_media-IsReleased, IsReleased}

abbrev alice : User
alice = record {
  id = 1;
  username = "alice";
  password_hash = "";
  role = Role.user;
  auth_version = 0;
  created_at = 10;
}

abbrev bob : User
bob = record {
  id = 2;
  username = "bob";
  password_hash = "";
  role = Role.user;
  auth_version = 0;
  created_at = 11;
}

abbrev carol : User
carol = record {
  id = 3;
  username = "carol";
  password_hash = "";
  role = Role.user;
  auth_version = 0;
  created_at = 12;
}

abbrev as_user : User → Principal
as_user u = record { user = u; scope = AuthScope.jwt; identity = some (u.id, u.created_at) }

abbrev crew : Team
crew = record { id = 1; name = "crew"; description = ""; owner_id = 1; created_at = 20 }

abbrev owner_row : TeamMember
owner_row = record { id = 1; team_id = 1; user_id = 1; role = TeamRole.owner; created_at = 20 }

abbrev member_row : TeamMember
member_row = record { id = 2; team_id = 1; user_id = 2; role = TeamRole.member; created_at = 21 }

abbrev film : Image
film = record {
  id = 1;
  code = codes "abc";
  original_filename = [];
  name = [];
  visibility = "private";
  stored_path = codes "f";
  content_type = "video/mp4";
  size = 10;
  sha256 = [];
  media_kind = MediaKind.video;
  created_at = 30;
  owner_id = some 2;
  team_id = some 1;
  signing_version = 0;
}

abbrev reel : MediaGroup
reel = record {
  id = 1;
  owner_id = 2;
  team_id = some 1;
  name = codes "reel";
  description = [];
  color = [];
  sort_order = pos 0;
  created_at = 31;
  updated_at = 31;
}

abbrev users_db : Db
users_db = record empty_db { users = alice ∷ bob ∷ carol ∷ [] }

abbrev team_db : Db
team_db = record users_db {
  teams = crew ∷ [];
  team_members = owner_row ∷ member_row ∷ [];
  runtime_counters =
      record { name = CounterName.team_id; value = 1; updated_at = 20 }
      ∷ record { name = CounterName.team_member_id; value = 2; updated_at = 21 }
      ∷ [];
  images = film ∷ [];
  media_groups = reel ∷ [];
}

abbrev without_bob : Db
without_bob = record team_db {
  team_members = owner_row ∷ [];
  media_groups = record reel { owner_id = 1 } ∷ [];
}

users_db-IsOwned : IsOwned users_db
unfolding get_team
users_db-IsOwned = record { distinct = tt; counted = tt; owned = λ t team h. absurd cc }

team_db-IsOwned : IsOwned team_db
unfolding get_team get_membership counter_value get_counter
team_db-IsOwned = record {
  distinct = ((((λ h. ground arith), (λ _ h. ground arith)), tt), (tt, tt));
  counted = (omega arith, (omega arith, tt));
  owned = λ t team h. elim (Bool-cases (1 == t)) [
    | inl hit ↦
        let same : crew ≡ team = ground arith in
        subst (OwnerRow team_db) same (owner_row, refl, refl)
    | inr miss ↦ absurd (ground arith)
  ];
}

remove_bob : remove_member 1 2 (as_user bob) 31 team_db ≡ ok without_bob
unfolding remove_member fresh_library_user copy_auth_scope bind_auth_scope get_user get_team
    get_member can_manage_team get_membership transfer_member_groups
remove_bob = refl

remove_member_revokes_example :
    (can_manage_image without_bob (as_user bob) film ≡ false)
    × (can_watch_private without_bob (some (as_user bob)) false film ≡ false)
    × (can_view_group without_bob (as_user bob) reel ≡ false)
unfolding get_member has_global_admin_scope
remove_member_revokes_example =
    remove_member_revokes 1 2 (as_user bob) (as_user bob) 31 team_db without_bob member_row film
      reel team_db-IsOwned refl remove_bob refl refl refl refl

abbrev promoted : Db
promoted = record team_db {
  team_members = owner_row ∷ record member_row { role = TeamRole.admin } ∷ [];
}

promote_bob : change_member_role 1 2 "admin" (as_user alice) team_db ≡ ok promoted
unfolding change_member_role role_of fresh_library_user copy_auth_scope bind_auth_scope get_user
    get_team get_member can_manage_team get_membership
promote_bob = refl

abbrev created : Db
created = record users_db {
  teams = crew ∷ [];
  team_members = owner_row ∷ [];
  runtime_counters =
      record { name = CounterName.team_id; value = 1; updated_at = 20 }
      ∷ record { name = CounterName.team_member_id; value = 1; updated_at = 20 }
      ∷ [];
}

create_crew : create_team " crew " "" (as_user alice) 20 users_db ≡ ok (crew, created)
unfolding create_team fresh_library_user copy_auth_scope bind_auth_scope get_user next_team_id
    next_team_member_id next_id allocate live_max counter_value get_counter put_counter
create_crew = refl

created-IsOwned : IsOwned created
created-IsOwned =
    create_team-IsOwned " crew " "" (as_user alice) 20 users_db created crew users_db-IsOwned
      create_crew

abbrev joined : Db
joined = record created {
  team_members = owner_row ∷ member_row ∷ [];
  runtime_counters =
      record { name = CounterName.team_id; value = 1; updated_at = 20 }
      ∷ record { name = CounterName.team_member_id; value = 2; updated_at = 21 }
      ∷ [];
}

add_bob : add_member 1 "bob" (as_user alice) 21 created ≡ ok (member_row, joined)
unfolding add_member fresh_library_user copy_auth_scope bind_auth_scope get_user get_team
    get_membership can_manage_team next_team_member_id next_id allocate live_max counter_value
    get_counter put_counter
add_bob = refl

delete_crew : delete_team 1 (as_user alice) team_db ≡ ok (dissolve_team_media team_db 1)
unfolding delete_team fresh_library_user copy_auth_scope bind_auth_scope get_user get_team
    get_membership can_manage_team
delete_crew = refl

dissolve_team_media-IsReleased_example : IsReleased 1 team_db (dissolve_team_media team_db 1)
unfolding get_team
dissolve_team_media-IsReleased_example = dissolve_team_media-IsReleased team_db 1 crew refl

Reach-IsOwned_example : IsOwned joined
Reach-IsOwned_example = Reach-IsOwned users_db-IsOwned (
    next (next here (creates " crew " "" (as_user alice) 20 crew created create_crew))
      (adds 1 "bob" (as_user alice) 21 member_row joined add_bob))
