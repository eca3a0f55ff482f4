-- ===== src/RouteService/Validation.antt =====
-- internal/service/remote_route_service.go: the first loop of MoveFilesWithProgress, which looks at
-- each source and its destination.
use rclone_sync_hub_go_backe.Prelude.{
  ℕ, Text, codes, text_eq, Bool, true, false, Option, List, [], ◌∷◌, ◌++◌, some_of, if◌then◌else◌,
}
use rclone_sync_hub_go_backe.Model.Folders.{RemoteRoute}
use rclone_sync_hub_go_backe.Database.Outcome.{driver}
use rclone_sync_hub_go_backe.Security.Policy.{ResourcePolicy}
use rclone_sync_hub_go_backe.UploadService.{Fault, untold}
use rclone_sync_hub_go_backe.RouteService.{
  Located, at_path, nowhere, mutation_path, object_path, destination_of, invalid, Stat, stat_failed,
  absent, present, Remote,
}
use rclone_sync_hub_go_backe.RouteService.Batch.{
  validating, Candidate, Batch, Ended, stopped, reached, onward, report, reject, with_remote,
}

-- What the look at the remote says of one source.
pub data Examined : Type 0 where
  abort : Fault → Examined
  unfit : Text → Examined
  fit : Candidate → Examined

-- Whether a source is new to the batch, and if so, whether its destination is.
pub data Novelty : Type 0 where
  repeated in_place taken novel : Novelty

-- The sources and the destinations so far, and the candidates.
pub record Seen : Type 0 where
  pub sources : List Text
  pub destinations : List Text
  pub found : List Candidate

abbrev pub memberb : Text → List Text → Bool
memberb s ts = some_of (λ t. text_eq t s) ts

module _ (R : Remote) where
  open R use {State, stat}

  abbrev pub examine_destination : Candidate → Stat → Examined
  examine_destination c stat_failed = abort (untold driver)
  examine_destination c absent = fit c
  examine_destination c (present d) = unfit (codes "destination already exists")

  unfoldable pub examine_source : Text → Candidate → Stat × State → Examined × State
  examine_source remote c (stat_failed, s) = (abort (untold driver), s)
  examine_source remote c (absent, s) = (unfit (codes "source file does not exist"), s)
  examine_source remote c (present true, s) = (unfit (codes "source path is a directory"), s)
  examine_source remote c (present false, s) =
      let x = stat remote c.destination_object s in (examine_destination c x.0, x.1)

  unfoldable pub examine : Text → Text → Text → Located → Located → State → Examined × State
  examine remote source destination (nowhere f) d s = (abort f, s)
  examine remote source destination (at_path p) (nowhere f) s = (abort f, s)
  examine remote source destination (at_path p) (at_path q) s =
      examine_source remote
        (record {
          source = source;
          destination = destination;
          source_object = p;
          destination_object = q;
        })
        (stat remote p s)

  module _ (policy : Option ResourcePolicy) (route : RemoteRoute) (total : ℕ) (target : Text) where
    abbrev pub novelty : List Text → List Text → Text → Novelty
    novelty sources destinations source =
        if memberb source sources
        then repeated
        else if text_eq (destination_of target source) source
        then in_place
        else if memberb (destination_of target source) destinations
        then taken
        else novel

    -- The look at one source whose destination is new.
    abbrev pub look : Text → Batch R → Examined × State
    look source b =
        examine route.remote_name source (destination_of target source)
          (object_path policy route source)
          (object_path policy route (destination_of target source)) b.remote

    -- One source of the first loop, by what is new about it and by what the look at it says.
    unfoldable pub validate_seen :
        List Text → List Text → List Candidate → Batch R → Text → Examined × State → Ended R Seen
    validate_seen sources destinations found b source (abort f, s) = stopped f (with_remote R b s)
    validate_seen sources destinations found b source (unfit reason, s) =
        reached (record { sources = sources; destinations = destinations; found = found })
          (reject R total validating source reason (with_remote R b s))
    validate_seen sources destinations found b source (fit c, s) =
        reached (record { sources = sources; destinations = destinations; found = found ++ c ∷ [] })
          (with_remote R b s)

    unfoldable pub validate_new : Seen → Batch R → Text → Novelty → Ended R Seen
    validate_new v b source repeated =
        stopped (invalid (codes "source_paths must not contain duplicates")) b
    validate_new v b source in_place =
        reached
          (record { sources = source ∷ v.sources; destinations = v.destinations; found = v.found })
          (reject R total validating source (codes "file is already in the target folder")
            (report R total validating source b))
    validate_new v b source taken =
        reached
          (record { sources = source ∷ v.sources; destinations = v.destinations; found = v.found })
          (reject R total validating source
            (codes "another selected file has the same destination name")
            (report R total validating source b))
    validate_new v b source novel =
        validate_seen (source ∷ v.sources) (destination_of target source ∷ v.destinations) v.found
          (report R total validating source b) source
          (look source (report R total validating source b))

    unfoldable pub validate_at : Seen → Batch R → Located → Ended R Seen
    validate_at v b (nowhere f) = stopped f b
    validate_at v b (at_path source) =
        validate_new v b source (novelty v.sources v.destinations source)

    -- The first loop, over the sources in their order.
    unfoldable pub validate : List Text → Seen → Batch R → Ended R (List Candidate)
    validate [] v b = reached v.found b
    validate (raw ∷ rest) v b =
        onward (validate_at v b (mutation_path raw false)) (λ v' b'. validate rest v' b')
