-- ===== src/Shop/Orgs.antt =====
-- apiV2/src/orgs/orgs.service.ts: organizations and their members.
use tflw_tests.Prelude.{
  ℕ, ◌≡◌, refl, ◌⊎◌, inl, inr, Bool, true, false, not, ◌&&◌, Option, none, some, List, [], ◌∷◌,
  ◌++◌, map, ◌==◌, if◌then◌else◌, any, filter, Text, codes, text_eq,
}
use tflw_tests.Shop.Tables.{
  not_found, conflict, Attempt, failed, done, and_then, or_missing, is_id, find_one, update,
}

pub data UserRole : Type 0 where
  admin : UserRole
  user : UserRole
  agent : UserRole

abbrev pub is_admin_role : UserRole → Bool
is_admin_role admin = true
is_admin_role _ = false

abbrev pub is_agent : UserRole → Bool
is_agent agent = true
is_agent _ = false

abbrev pub is_user : UserRole → Bool
is_user user = true
is_user _ = false

pub UserRole-cases : (r : UserRole) → (r ≡ admin) ⊎ ((r ≡ user) ⊎ (r ≡ agent))
UserRole-cases admin = inl refl
UserRole-cases user = inr (inl refl)
UserRole-cases agent = inr (inr refl)

pub record Account : Type 0 where
  pub id : ℕ
  pub name : Text
  pub email : Text
  pub role : UserRole

pub record AuthedUser : Type 0 where
  pub id : ℕ
  pub role : UserRole

pub data OrgRole : Type 0 where
  owner : OrgRole
  org_admin : OrgRole
  member : OrgRole

pub record Organization : Type 0 where
  pub id : ℕ
  pub name : Text
  pub plan : Text

pub record OrgMembership : Type 0 where
  pub id : ℕ
  pub org_id : ℕ
  pub user_id : ℕ
  pub org_role : OrgRole

pub record CallerMembership : Type 0 where
  pub org_id : ℕ
  pub org_role : OrgRole

abbrev pub of_user : ℕ → OrgMembership → Bool
of_user user_id m = m.user_id == user_id

unfoldable pub get_for_user : ℕ → List OrgMembership → Option CallerMembership
get_for_user user_id memberships = elim (find_one (of_user user_id) memberships) [
  | none ↦ none
  | some m ↦ some (record { org_id = m.org_id; org_role = m.org_role })
]

abbrev pub manages : OrgRole → Bool
manages owner = true
manages org_admin = true
manages member = false

unfoldable pub is_owner_or_admin : Option CallerMembership → Bool
is_owner_or_admin none = false
is_owner_or_admin (some m) = manages m.org_role

-- `isOwnerOrAdmin(membership) && membership.orgId === row.orgId`
unfoldable pub manages_org : Option CallerMembership → Option ℕ → Bool
unfolding is_owner_or_admin
manages_org none org = false
manages_org (some m) org = is_owner_or_admin (some m) && is_id org m.org_id

-- `membership?.orgId ?? null`
unfoldable pub org_of : Option CallerMembership → Option ℕ
org_of none = none
org_of (some m) = some m.org_id

pub record Directory : Type 0 where
  pub orgs : List Organization
  pub users : List Account
  pub memberships : List OrgMembership

abbrev pub is_org : ℕ → Organization → Bool
is_org id o = o.id == id

abbrev pub is_membership : ℕ → OrgMembership → Bool
is_membership id m = m.id == id

-- The unique constraint on (orgId, userId).
abbrev pub pairs : ℕ → ℕ → OrgMembership → Bool
pairs org_id user_id m = (m.org_id == org_id) && (m.user_id == user_id)

pub add_member : ℕ → ℕ → Text → OrgRole → Directory → Attempt (OrgMembership × Directory)
unfolding and_then or_missing find_one
add_member id org_id email role d = and_then (or_missing (find_one (is_org org_id) d.orgs)) λ org.
    and_then (or_missing (find_one (λ u. text_eq u.email email) d.users)) λ u.
      let m : OrgMembership = record {
        id = id;
        org_id = org_id;
        user_id = u.id;
        org_role = role;
      } in
      if any (pairs org_id u.id) d.memberships
      then failed conflict
      else done (m, record d { memberships = d.memberships ++ m ∷ [] })

unfoldable pub find_membership_in_org : ℕ → ℕ → Directory → Attempt OrgMembership
unfolding and_then or_missing find_one
find_membership_in_org org_id membership_id d =
    and_then (or_missing (find_one (is_membership membership_id) d.memberships))
      λ m. if m.org_id == org_id then done m else failed not_found

pub update_member_role : ℕ → ℕ → OrgRole → Directory → Attempt (OrgMembership × Directory)
unfolding and_then update find_membership_in_org
update_member_role org_id membership_id role d =
    and_then (find_membership_in_org org_id membership_id d) λ m.
      let n : OrgMembership = record m { org_role = role } in
      done (
        n,
        record d { memberships = update (is_membership membership_id) (λ row. n) d.memberships },
      )

pub remove_member : ℕ → ℕ → Directory → Attempt Directory
unfolding and_then find_membership_in_org
remove_member org_id membership_id d = and_then (find_membership_in_org org_id membership_id d) λ m.
    done (record d {
      memberships = filter (λ row. not (is_membership membership_id row)) d.memberships;
    })

pub create_org : ℕ → Text → Text → Directory → Organization × Directory
create_org id name plan d =
    let o : Organization = record { id = id; name = name; plan = plan } in
    (o, record d { orgs = d.orgs ++ o ∷ [] })

-- `if (dto.x !== undefined) row.x = dto.x`
pub or_kept : Option Text → Text → Text
or_kept none old = old
or_kept (some new) old = new

pub update_org : ℕ → Option Text → Option Text → Directory → Attempt (Organization × Directory)
unfolding and_then or_missing find_one update or_kept
update_org id name plan d = and_then (or_missing (find_one (is_org id) d.orgs)) λ org.
    let o : Organization = record org {
      name = or_kept name org.name;
      plan = or_kept plan org.plan;
    } in
    done (o, record d { orgs = update (is_org id) (λ row. o) d.orgs })

pub record Listed : Type 0 where
  pub membership : OrgMembership
  pub user_email : Text
  pub user_name : Text

pub listed : List Account → OrgMembership → Listed
unfolding find_one
listed users m = elim (find_one (λ u. u.id == m.user_id) users) [
  | none ↦ record { membership = m; user_email = codes "(unknown)"; user_name = codes "(unknown)" }
  | some u ↦ record { membership = m; user_email = u.email; user_name = u.name }
]

pub list_members : ℕ → Directory → Attempt (List Listed)
unfolding and_then or_missing find_one listed
list_members org_id d =
    and_then (or_missing (find_one (is_org org_id) d.orgs))
      λ org. done (map (listed d.users) (filter (λ m. m.org_id == org_id) d.memberships))
