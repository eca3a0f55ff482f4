-- ===== src/RouteService/Batch.antt =====
-- internal/service/remote_route_service.go: the result of MoveFilesWithProgress, its reports, and how
-- it ends.
use rclone_sync_hub_go_backe.Prelude.{ℕ, ◌+◌, Text, Bool, false, ltb, length, List, [], ◌∷◌, ◌++◌}
use rclone_sync_hub_go_backe.UploadService.{Fault}
use rclone_sync_hub_go_backe.RouteService.{Remote}

-- RemoteBatchMoveResult: the sources with their destinations, or with their reasons.
pub record BatchMove : Type 0 where
  pub moved : List (Text × Text)
  pub failed : List (Text × Text)
  pub refresh_scheduled : Bool

pub data Phase : Type 0 where
  preparing validating moving refreshing completed : Phase

-- RemoteMoveProgress
pub record Progress : Type 0 where
  pub phase : Phase
  pub total : ℕ
  pub processed : ℕ
  pub current_path : Text
  pub result : BatchMove

pub record Candidate : Type 0 where
  pub source : Text
  pub destination : Text
  pub source_object : Text
  pub destination_object : Text

-- The batch so far, its reports, and the remote.
pub record Batch (R : Remote) : Type 0 where
  pub result : BatchMove
  pub reports : List Progress
  pub remote : R.State

pub data Ended (R : Remote) (A : Type 0) : Type 0 where
  stopped : Fault → Batch R → Ended R A
  reached : A → Batch R → Ended R A

abbrev pub onward : {R : Remote} {A B : Type 0} → Ended R A → (A → Batch R → Ended R B) → Ended R B
onward (stopped f b) next = stopped f b
onward (reached a b) next = next a b

module _ (R : Remote) where
  open R use {State}

  abbrev pub report : ℕ → Phase → Text → Batch R → Batch R
  report total phase path b = record b {
    reports =
        b.reports
        ++ record {
          phase = phase;
          total = total;
          processed = length b.result.moved + length b.result.failed;
          current_path = path;
          result = b.result;
        }
          ∷ [];
  }

  abbrev pub fail_with : Text → Text → Batch R → Batch R
  fail_with source reason b = record {
    result = record {
      moved = b.result.moved;
      failed = b.result.failed ++ (source, reason) ∷ [];
      refresh_scheduled = b.result.refresh_scheduled;
    };
    reports = b.reports;
    remote = b.remote;
  }

  abbrev pub move_to : Text → Text → Batch R → Batch R
  move_to source destination b = record {
    result = record {
      moved = b.result.moved ++ (source, destination) ∷ [];
      failed = b.result.failed;
      refresh_scheduled = b.result.refresh_scheduled;
    };
    reports = b.reports;
    remote = b.remote;
  }

  abbrev pub with_remote : Batch R → State → Batch R
  with_remote b s = record { result = b.result; reports = b.reports; remote = s }

  -- A source that cannot be moved is reported, and the batch goes on.
  abbrev pub reject : ℕ → Phase → Text → Text → Batch R → Batch R
  reject total phase source reason b = report total phase source (fail_with source reason b)

  abbrev pub no_moves : State → Batch R
  no_moves s = record {
    result = record { moved = []; failed = []; refresh_scheduled = false };
    reports = [];
    remote = s;
  }

  -- After the second loop: the refresh of the index if a file was moved.
  abbrev pub set_refresh : Bool → Batch R → Batch R
  set_refresh scheduled b = record {
    result = record {
      moved = b.result.moved;
      failed = b.result.failed;
      refresh_scheduled = scheduled;
    };
    reports = b.reports;
    remote = b.remote;
  }

  abbrev pub any_moved : Batch R → Bool
  any_moved b = ltb 0 (length b.result.moved)
