-- ===== src/Runtime/Asked.antt =====
-- cri.go: what a container's config has of the request that it is translated from.
use virtlet.Prelude.{
  str_eq, Bool-cases, Option-cases, Option, some, [], ◌≡◌, sym, ap, ◌∙◌, inl, inr,
}
use virtlet.Result.{ok, err, errorf, ok_injective}
use virtlet.Types.{ContainerSideNetwork, VmConfig}
use virtlet.Runtime.Messages.{CreateContainerRequest, CriContainerConfig}
use virtlet.Runtime.Convert.{get_vm_config, vm_config_of}

-- The request's image, environment, mounts and devices, its pod, and the pod's network.
pub record AsAsked (r : CreateContainerRequest) (csn : Option ContainerSideNetwork)
    (config : VmConfig) : Type 0 where
  pub asked : CriContainerConfig
  pub given : r.config ≡ some asked
  pub image : asked.image ≡ some config.image
  pub environment : config.environment ≡ asked.envs
  pub mounts : config.mounts ≡ asked.mounts
  pub devices : config.volume_devices ≡ asked.devices
  pub pod : config.pod_sandbox_id ≡ r.pod_sandbox_id
  pub network : config.container_side_network ≡ csn

refused : {A : Type 0} {config : VmConfig} → err (errorf "invalid input data") ≡ ok config → A
refused h = absurd (cc)

pub get_vm_config-AsAsked :
    (r : CreateContainerRequest) (csn : Option ContainerSideNetwork) (config : VmConfig)
    → get_vm_config r csn ≡ ok config
    → AsAsked r csn config
unfolding get_vm_config vm_config_of
get_vm_config-AsAsked r csn config h = elim (Option-cases r.config) [
  | inl none_given ↦ refused (rw none_given at h)
  | inr (c, given) ↦ elim (Option-cases c.metadata) [
    | inl no_metadata ↦ refused (rw (given, no_metadata) at h)
    | inr (m, named) ↦ elim (Bool-cases (str_eq m.name [])) [
      | inl nameless ↦ refused (rw (given, named, nameless) at h)
      | inr has_name ↦ elim (Option-cases c.image) [
        | inl no_image ↦ refused (rw (given, named, has_name, no_image) at h)
        | inr (image, shown) ↦ elim (Option-cases r.sandbox_config) [
          | inl no_pod ↦ refused (rw (given, named, has_name, shown, no_pod) at h)
          | inr (p, pod) ↦ elim (Option-cases p.metadata) [
            | inl unnamed ↦ refused (rw (given, named, has_name, shown, pod, unnamed) at h)
            | inr (pm, known) ↦
                let same : ok (vm_config_of r csn c m image p pm) ≡ ok config =
                  rw (given, named, has_name, shown, pod, known) at h in
                let is : vm_config_of r csn c m image p pm ≡ config = ok_injective same in
                record {
                  asked = c;
                  given = given;
                  image = shown ∙ ap (λ (k : VmConfig). some k.image) is;
                  environment = sym (ap (λ (k : VmConfig). k.environment) is);
                  mounts = sym (ap (λ (k : VmConfig). k.mounts) is);
                  devices = sym (ap (λ (k : VmConfig). k.volume_devices) is);
                  pod = sym (ap (λ (k : VmConfig). k.pod_sandbox_id) is);
                  network = sym (ap (λ (k : VmConfig). k.container_side_network) is);
                }
          ]
        ]
      ]
    ]
  ]
]
