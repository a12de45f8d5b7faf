-- ===== src/Ipc.antt =====
-- ipc/src/message.rs: versions of message schemas, and the envelope around a message. An identifier is
-- a number.
use Prim.Native.String.{String}
use panda_gen.Prelude.{ℕ, Bool, ◌&&◌, ◌||◌, List, Option, if◌then◌else◌, ltb, ◌==◌}
use panda_gen.Scheduler.Types.{TaskId}

abbrev pub MessageId : Type 0
MessageId = ℕ

abbrev pub ServiceId : Type 0
ServiceId = ℕ

abbrev pub ChannelId : Type 0
ChannelId = ℕ

pub record SchemaVersion : Type 0 where
  pub major : ℕ
  pub minor : ℕ

abbrev pub is_compatible_with : SchemaVersion → SchemaVersion → Bool
is_compatible_with v other = v.major == other.major

abbrev pub is_older_than : SchemaVersion → SchemaVersion → Bool
is_older_than v other = ltb v.major other.major || v.major == other.major && ltb v.minor other.minor

abbrev pub is_newer_than : SchemaVersion → SchemaVersion → Bool
is_newer_than v other = ltb other.major v.major || v.major == other.major && ltb other.minor v.minor

pub data Compatibility : Type 0 where
  compatible upgrade_required unsupported : Compatibility

pub record VersionPolicy : Type 0 where
  pub current : SchemaVersion
  pub min_major : ℕ

-- `VersionPolicy::current`
abbrev pub current_policy : ℕ → ℕ → VersionPolicy
current_policy major minor = record {
  current = record { major = major; minor = minor };
  min_major = major;
}

abbrev pub with_min_major : VersionPolicy → ℕ → VersionPolicy
with_min_major policy min_major = record policy { min_major = min_major }

unfoldable pub check_compatibility : VersionPolicy → SchemaVersion → Compatibility
check_compatibility policy incoming =
    if ltb policy.current.major incoming.major
    then unsupported
    else if ltb incoming.major policy.min_major
    then upgrade_required
    else compatible

abbrev pub min_version : VersionPolicy → SchemaVersion
min_version policy = record { major = policy.min_major; minor = 0 }

pub data SchemaMismatchError : Type 0 where
  needs_upgrade : ServiceId → SchemaVersion → SchemaVersion → SchemaMismatchError
  not_supported : ServiceId → SchemaVersion → SchemaVersion → SchemaVersion → SchemaMismatchError

pub record MessageEnvelope : Type 0 where
  pub id : MessageId
  pub destination : ServiceId
  pub source : Option TaskId
  pub action : String
  pub schema_version : SchemaVersion
  pub correlation_id : Option MessageId
  pub payload : List ℕ
