-- ===== src/LocalPv/Detector/Counts.antt =====
-- The gauges that a pass of the device detector sets.
use neco_containers.Base.{
  ℕ, ◌+◌, ◌≡◌, true, false, List, [], ◌∷◌, ◌++◌, Result, arith, length, length-append, is_ok,
  if◌then◌else◌,
}
use neco_containers.LocalPv.Spec.{PvSpec}
use neco_containers.LocalPv.Volume.{Device, Node, create_pv, pv_name}
use neco_containers.LocalPv.Detector.{
  DetectorApi, Config, Tally, provision, clean_and_provision, process, process_all,
}

abbrev total : Tally → ℕ
total t = length t.avail + length t.errors

module _ {W E Regex : Type 0} (api : DetectorApi W E Regex) (c : Config) (node : Node)
    (s : PvSpec Regex) where
  abbrev create : Device → W → Result E (Unit {0}) × W
  create dev w = create_pv api.volumes api.names c.node_name dev node s w

  total-provision :
      (dev : Device) (t : Tally) (w : W)
      → total (provision api c node s dev t w).0
        ≡ total t + (if is_ok (create dev w).0 then 1 else 2)
  unfolding provision
  total-provision dev t w =
      ground (arith, length-append t.avail (dev ∷ []), length-append t.errors (dev ∷ []))

  -- A pass counts each device once, as available or as an error, if no volume fails to be created.
  total-process :
      (dev : Device) (t : Tally) (w : W)
      → ((dev : Device) (w : W) → is_ok (create dev w).0 ≡ true)
      → total (process api c node s dev t w).0 ≡ total t + 1
  unfolding process clean_and_provision
  total-process dev t w creates =
      let w1 = (api.get_pv (pv_name api.names c.node_name dev.path) w).1 in
      let w2 = (api.delete_device dev.path w1).1 in
      ground (
        arith,
        length-append t.errors (dev ∷ []),
        total-provision dev t w1,
        total-provision dev t w2,
        creates dev w1,
        creates dev w2,
      )

  -- If every volume can be created, the devices that the pass counts as available and as errors
  -- are together those that it listed and those that were errors before.
  pub total-process_all :
      (devs : List Device) (t : Tally) (w : W)
      → ((dev : Device) (w : W) → is_ok (create dev w).0 ≡ true)
      → length (process_all api c node s devs t w).0.avail
          + length (process_all api c node s devs t w).0.errors
        ≡ length t.avail + length t.errors + length devs
  unfolding process_all
  total-process_all [] t w creates = omega arith
  total-process_all (dev ∷ devs) t w creates =
      let (t', w') = process api c node s dev t w in
      omega (arith, total-process dev t w creates, total-process_all devs t' w' creates)

  -- A device whose volume is there but cannot be updated is counted twice, as an error and as
  -- available.
  process_update_failure :
      (dev : Device) (t : Tally) (w : W)
      → is_ok (api.get_pv (pv_name api.names c.node_name dev.path) w).0 ≡ true
      → is_ok (create dev (api.get_pv (pv_name api.names c.node_name dev.path) w).1).0 ≡ false
      → (process api c node s dev t w).0
        ≡ record { avail = t.avail ++ dev ∷ []; errors = t.errors ++ dev ∷ [] }
  unfolding process provision
  process_update_failure dev t w found fails = ground arith
