-- ===== src/TcpKeepalive/Client/ConnState.antt =====
-- The gauges of the connection when the client ends.
use neco_containers.Base.{Option, none, some}
use neco_containers.TcpKeepalive.Client.{State, End}
use neco_containers.TcpKeepalive.Client.Laws.{IsOneHot}

module _ {E : Type 0} where
  abbrev pub EndIsOneHot : Option (End E × State) → Type 0
  EndIsOneHot none = Unit
  EndIsOneHot (some (e, st)) = IsOneHot st.gauges
