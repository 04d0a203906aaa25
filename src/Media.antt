-- ===== src/Media.antt =====
-- internal/media/contracts.go: the data that the media packages exchange. A time is a number of
-- nanoseconds, 0 for Go's zero time; an identifier is a text and an int64 an integer. A string
-- type with named constants is an enum whose last constructor holds any other string.
use iolink.Base.{
  ℕ, ◌+◌, ◌-◌, ◌*◌, ◌≡◌, ◌↔◌, ◌==◌, Comparable, text_eq, text_beq, text_beq_iff, nat_eq, Bool, true,
  false, Text, ℤ, pos_part, neg_part, arith, ltb, Option, GoError,
}

abbrev pub Time : Type 0
Time = ℕ

-- Nanoseconds.
abbrev pub second : ℕ
second = 1000000000

-- `t.Add(d)`, with a bound at Go's zero time.
abbrev pub add_time : Time → ℤ → Time
add_time t d = t + pos_part d - neg_part d

-- `t.Before(u)` and `t.After(u)`.
abbrev pub before : Time → Time → Bool
before t u = ltb t u

abbrev pub after : Time → Time → Bool
after t u = ltb u t

abbrev pub is_zero_time : Time → Bool
is_zero_time t = t == 0

abbrev pub max_manifest_bytes : ℕ
max_manifest_bytes = 256 * 1024

abbrev pub max_segment_bytes : ℕ
max_segment_bytes = 8 * 1024 * 1024

pub data JobKind : Type 0 where
  start stop : JobKind
  other_kind : Text → JobKind

pub data JobStatus : Type 0 where
  ready stopped skipped retryable failed unknown disabled : JobStatus
  other_status : Text → JobStatus

pub data SessionState : Type 0 where
  pending ready failed revoked expired : SessionState
  other_state : Text → SessionState

abbrev pub kind_beq : JobKind → JobKind → Bool
kind_beq start start = true
kind_beq stop stop = true
kind_beq (other_kind s) (other_kind t) = text_beq s t
kind_beq _ _ = false

pub kind_beq_iff : (a b : JobKind) → (kind_beq a b ≡ true) ↔ (a ≡ b)
kind_beq_iff start b = ground arith
kind_beq_iff stop b = ground arith
kind_beq_iff (other_kind s) start = ground arith
kind_beq_iff (other_kind s) stop = ground arith
kind_beq_iff (other_kind s) (other_kind t) = ground (arith, text_beq_iff s t)

instance abbrev pub kind_eq : Comparable JobKind
kind_eq = record { same = kind_beq; same_iff = kind_beq_iff }

pub record LicenseSnapshot : Type 0 where
  pub deployment_id : Text
  pub payload : Text
  pub signature : Text
  pub sha256 : Text
  pub max_seen_at : Time
  pub clock_error : Bool
  pub now : Time

pub record PlaybackTarget : Type 0 where
  pub tenant_id : ℤ
  pub camera_id : ℤ
  pub source_version : ℤ
  pub stream_id : Text
  pub user_id : ℤ
  pub user_token_version : ℤ
  pub tenant_permission_version : ℤ
  pub member_permission_version : ℤ
  pub license : LicenseSnapshot

pub record Session : Type 0 where
  pub id : Text
  pub stream_id : Text
  pub tenant_id : ℤ
  pub camera_id : ℤ
  pub source_version : ℤ
  pub user_id : ℤ
  pub user_token_version : ℤ
  pub tenant_permission_version : ℤ
  pub member_permission_version : ℤ
  pub state : SessionState
  pub error_code : Text
  pub created_at : Time
  pub expires_at : Time

pub record CreateSession : Type 0 where
  pub session : Session
  pub target : PlaybackTarget
  pub token_hash : Text
  pub start_job_key : Text

pub record Job : Type 0 where
  pub id : Text
  pub kind : JobKind
  pub camera_id : ℤ
  pub source_version : ℤ
  pub stream_id : Text
  pub session_id : Text
  pub attempts : ℤ

pub record Lease : Type 0 where
  pub job : Job
  pub open job use *
  pub lease_token : Text
  pub leased_until : Time

pub record JobAuthorization : Type 0 where
  pub target : PlaybackTarget
  pub active : Bool
  pub source_current : Bool
  pub stop_superseded : Bool

pub record JobResult : Type 0 where
  pub status : JobStatus
  pub error_code : Text
  pub next_at : Time

pub record MediaClaims : Type 0 where
  pub session_id : Text
  pub tenant_id : ℤ
  pub camera_id : ℤ
  pub user_id : ℤ
  pub source_version : ℤ
  pub audience : Text
  pub issued_at : Time
  pub expires_at : Time
  pub jti : Text

pub record IssuedToken : Type 0 where
  pub raw : Text
  pub claims : MediaClaims

pub record MediaAccess : Type 0 where
  pub session_id : Text
  pub stream_id : Text
  pub tenant_id : ℤ
  pub camera_id : ℤ
  pub source_version : ℤ
  pub state : SessionState
  pub expires_at : Time

pub record SegmentMapping : Type 0 where
  pub id : Text
  pub session_id : Text
  pub stream_id : Text
  pub source_version : ℤ
  pub path : Text

-- `StartRequest` and `StopRequest`, which have the same fields.
pub record StreamRequest : Type 0 where
  pub camera_id : ℤ
  pub source_version : ℤ
  pub stream_id : Text

-- A context: `none` is nil, otherwise what `ctx.Err()` answers.
abbrev pub Context : Type 0
Context = Option (Option GoError)
