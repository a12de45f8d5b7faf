-- ===== src/Kernel/Services.antt =====
-- sim_kernel/src/lib.rs: the registry of services and their schema policies.
use panda_gen.Prelude.{none, some, put, Result, ok, err}
use panda_gen.Ipc.{ServiceId, ChannelId, VersionPolicy}
use panda_gen.Kernel.{SimulatedKernel}
use panda_gen.Kernel.Types.{
  KernelError, service_already_registered, service_not_found, words_service,
}

unfoldable pub register_service :
    SimulatedKernel → ServiceId → ChannelId → SimulatedKernel × Result KernelError Unit
register_service k service channel = elim (k.services service) [
  | some taken ↦ (k, err (service_already_registered (words_service service)))
  | none ↦ (record k { services = put k.services service channel }, ok tt)
]

unfoldable pub lookup_service : SimulatedKernel → ServiceId → Result KernelError ChannelId
lookup_service k service = elim (k.services service) [
  | none ↦ err (service_not_found (words_service service))
  | some channel ↦ ok channel
]

unfoldable pub set_service_schema_policy :
    SimulatedKernel → ServiceId → VersionPolicy → SimulatedKernel
set_service_schema_policy k service policy = record k {
  service_policies = put k.service_policies service policy;
}

unfoldable pub register_service_with_schema :
    SimulatedKernel
    → ServiceId
    → ChannelId
    → VersionPolicy
    → SimulatedKernel × Result KernelError Unit
unfolding register_service set_service_schema_policy
register_service_with_schema k service channel policy =
    elim (register_service k service channel).1 [
      | err e ↦ ((register_service k service channel).0, err e)
      | ok _ ↦
          (set_service_schema_policy (register_service k service channel).0 service policy, ok tt)
    ]
