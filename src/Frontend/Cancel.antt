-- ===== src/Frontend/Cancel.antt =====
-- frontend/coprs_frontend/coprs/logic/builds_logic.py: `cancel_build`, `cancel_builds`,
-- `check_build_to_delete`, `delete_build` and `delete_builds`, with `send_cancel_build` of
-- logic/actions_logic.py. The session holds the rows that they touch; the HTTP call of
-- `process_update_callback` and the log change nothing there. Exceptions are values.
pub mod AllOrNothing
pub mod Projects
pub mod Deleted
use copr.Base.{
  ℕ, Option, none, some, List, [], ◌∷◌, ◌++◌, Bool, true, false, not, ◌&&◌, ◌||◌, ◌==◌,
  if◌then◌else◌, map,
}
use copr.Base.Equality.{Text, nat_eq, text_eq, bool_eq, beq}
use copr.Base.Dict.{contains, discard}
use copr.Frontend.User.{Copr, Permission, User, can_build_in, can_edit}
use copr.Frontend.Build.{Build, BuildChroot, cancelable, finished}

-- CancelRequest.what, the task id of a build or of one of its chroots.
pub data CancelRequest : Type 0 where
  of_build : ℕ → CancelRequest
  of_chroot : ℕ → Text → CancelRequest

pub record Session : Type 0 where
  pub builds : List Build
  pub cancel_requests : List CancelRequest
  pub delete_actions : List (List ℕ)

pub data Outcome : Type 0 where
  -- InsufficientRightsException, ConflictingRequest, ActionInProgressException
  no_rights conflicting in_progress : Outcome
  -- BadRequest, with the ids that its message lists
  bad_request : List ℕ → List ℕ → List ℕ → Outcome
  -- BadRequest, "Can not delete builds from more projects"
  more_projects : Outcome
  done : Session → Outcome

abbrev pub ids_of : List Build → List ℕ
ids_of builds = map (λ b. b.id) builds

unfoldable pub get_by_ids : List ℕ → List Build → List Build
get_by_ids ids [] = []
get_by_ids ids (b ∷ bs) =
    let rest = get_by_ids ids bs in if contains ids b.id then b ∷ rest else rest

abbrev pub send_cancel_build : Build → List CancelRequest → List CancelRequest
send_cancel_build build requests =
    if build.canceled_flag
    then requests
    else requests ++ of_build build.id ∷ map (λ c. of_chroot build.id c.name) build.build_chroots

unfoldable pub send_cancel_multiple_builds : List Build → List CancelRequest → List CancelRequest
send_cancel_multiple_builds [] requests = requests
send_cancel_multiple_builds (b ∷ bs) requests =
    send_cancel_multiple_builds bs (send_cancel_build b requests)

-- build.canceled = True, for the row with the id.
unfoldable pub set_canceled : ℕ → List Build → List Build
set_canceled id [] = []
set_canceled id (b ∷ bs) =
    (if b.id == id then record b { canceled_flag = true } else b) ∷ set_canceled id bs

unfoldable pub set_all_canceled : List Build → List Build → List Build
unfolding set_canceled
set_all_canceled [] builds = builds
set_all_canceled (b ∷ bs) builds = set_all_canceled bs (set_canceled b.id builds)

unfoldable pub cancel_build : List Permission → User → Build → Session → Outcome
cancel_build table user build s =
    if not (can_build_in table user build.copr).0
    then no_rights
    else if not (cancelable build)
    then conflicting
    else done (record s {
      builds = set_canceled build.id s.builds;
      cancel_requests = send_cancel_build build s.cancel_requests;
    })

-- The loop of `cancel_builds`, with its three lists.
pub record ToCancel : Type 0 where
  pub to_cancel : List Build
  pub no_permission : List ℕ
  pub not_cancelable : List ℕ

unfoldable pub sort_build : Bool → Build → ToCancel → ToCancel
sort_build can_build b rest =
    if not can_build
    then record rest { no_permission = b.id ∷ rest.no_permission }
    else if not (cancelable b)
    then record rest { not_cancelable = b.id ∷ rest.not_cancelable }
    else record rest { to_cancel = b ∷ rest.to_cancel }

unfoldable pub sort_builds : List Permission → User → List Build → ToCancel
unfolding sort_build
sort_builds table user [] = record { to_cancel = []; no_permission = []; not_cancelable = [] }
sort_builds table user (b ∷ bs) =
    let (can_build, user') = can_build_in table user b.copr in
    sort_build can_build b (sort_builds table user' bs)

unfoldable pub finish_cancel : ToCancel → List ℕ → List ℕ → Session → Outcome
unfolding set_all_canceled send_cancel_multiple_builds
finish_cancel sorted [] [] s = done (record s {
  builds = set_all_canceled sorted.to_cancel s.builds;
  cancel_requests = send_cancel_multiple_builds sorted.to_cancel s.cancel_requests;
})
finish_cancel sorted [] (j ∷ not_cancelable) s = bad_request [] (j ∷ not_cancelable) []
finish_cancel sorted (i ∷ no_permission) not_cancelable s =
    bad_request (i ∷ no_permission) not_cancelable []

unfoldable pub cancel_builds : List Permission → User → List ℕ → Session → Outcome
unfolding sort_builds finish_cancel get_by_ids
cancel_builds table user build_ids s =
    let sorted = sort_builds table user (get_by_ids build_ids s.builds) in
    finish_cancel sorted sorted.no_permission sorted.not_cancelable s

-- `check_build_to_delete`: nothing, InsufficientRightsException or ActionInProgressException.
pub data Check : Type 0 where
  passes refuses unfinished : Check

unfoldable pub check_build_to_delete : List Permission → User → Build → Check × User
check_build_to_delete table user build =
    if build.copr.persistent
    then (refuses, user)
    else let (can, user') = can_edit table user build.copr in
      (if not can then refuses else if not (finished build) then unfinished else passes, user')

-- db.session.delete(build)
unfoldable pub delete_row : ℕ → List Build → List Build
delete_row id [] = []
delete_row id (b ∷ bs) = let rest = delete_row id bs in if b.id == id then rest else b ∷ rest

unfoldable pub delete_rows : List Build → List Build → List Build
unfolding delete_row
delete_rows [] builds = builds
delete_rows (b ∷ bs) builds = delete_rows bs (delete_row b.id builds)

unfoldable pub delete_build : List Permission → User → Build → Bool → Session → Outcome
unfolding check_build_to_delete
delete_build table user build send_delete_action s =
    by_check (check_build_to_delete table user build).0
  where
    by_check : Check → Outcome
    by_check refuses = no_rights
    by_check unfinished = in_progress
    by_check passes = done (record s {
      builds = delete_row build.id s.builds;
      delete_actions =
          if send_delete_action then s.delete_actions ++ (build.id ∷ []) ∷ [] else s.delete_actions;
    })

pub record ToDelete : Type 0 where
  pub to_delete : List Build
  pub refused : List ℕ
  pub still_running : List ℕ

unfoldable pub sort_check : Check → Build → ToDelete → ToDelete
sort_check passes b rest = record rest { to_delete = b ∷ rest.to_delete }
sort_check refuses b rest = record rest { refused = b.id ∷ rest.refused }
sort_check unfinished b rest = record rest { still_running = b.id ∷ rest.still_running }

unfoldable pub sort_deletes : List Permission → User → List Build → ToDelete
unfolding sort_check
sort_deletes table user [] = record { to_delete = []; refused = []; still_running = [] }
sort_deletes table user (b ∷ bs) =
    let (check, user') = check_build_to_delete table user b in
    sort_check check b (sort_deletes table user' bs)

-- `build_ids.remove(build.id)` for each build found.
unfoldable pub remove_found : List Build → List ℕ → List ℕ
remove_found [] build_ids = build_ids
remove_found (b ∷ bs) build_ids = remove_found bs (discard build_ids b.id)

-- `copr.owner_name`, which tells apart the groups and the users.
unfoldable pub same_owner : Option Text → ℕ → Option Text → ℕ → Bool
same_owner none user_id none user_id' = user_id == user_id'
same_owner none user_id (some g) user_id' = false
same_owner (some g) user_id none user_id' = false
same_owner (some g) user_id (some h) user_id' = beq g h

-- The params "ownername", "projectname" and "appstream" of `get_build_delete_data`.
unfoldable pub same_params : Copr → Copr → Bool
unfolding same_owner
same_params c d =
    same_owner c.group c.user_id d.group d.user_id
    && beq c.name d.name
    && beq c.appstream d.appstream

-- The loop over the builds after the first, with the params of the one before.
unfoldable pub inherits : Copr → List Build → Bool
unfolding same_params
inherits copr [] = true
inherits copr (b ∷ bs) = same_params copr b.copr && inherits b.copr bs

-- `none` is the BadRequest.
unfoldable pub send_delete_multiple_builds : List Build → List (List ℕ) → Option (List (List ℕ))
unfolding inherits
send_delete_multiple_builds [] actions = some actions
send_delete_multiple_builds (b ∷ bs) actions =
    if inherits b.copr bs then some (actions ++ ids_of (b ∷ bs) ∷ []) else none

-- `if to_delete and send_delete_action`
unfoldable pub send_delete : List Build → Bool → List (List ℕ) → Option (List (List ℕ))
unfolding send_delete_multiple_builds
send_delete to_delete send_delete_action actions =
    if send_delete_action then send_delete_multiple_builds to_delete actions else some actions

unfoldable pub delete_sent : List Build → Session → Option (List (List ℕ)) → Outcome
unfolding delete_rows
delete_sent to_delete s none = more_projects
delete_sent to_delete s (some actions) =
    done (record s { builds = delete_rows to_delete s.builds; delete_actions = actions })

unfoldable pub finish_delete : ToDelete → Bool → List ℕ → List ℕ → List ℕ → Session → Outcome
unfolding delete_sent send_delete
finish_delete sorted send_delete_action [] [] [] s =
    delete_sent sorted.to_delete s
      (send_delete sorted.to_delete send_delete_action s.delete_actions)
finish_delete sorted send_delete_action missing refused running s =
    bad_request refused running missing

unfoldable pub delete_builds : List Permission → User → List ℕ → Bool → Session → Outcome
unfolding sort_deletes finish_delete get_by_ids remove_found
delete_builds table user build_ids send_delete_action s =
    let builds = get_by_ids build_ids s.builds in
    let sorted = sort_deletes table user builds in
    finish_delete sorted send_delete_action (remove_found builds build_ids) sorted.refused
      sorted.still_running s
