-- ===== src/Lib.antt =====
-- A verification library for the Go programs of the repository neco-containers. Each program stands
-- alone: they meet in the API server of Kubernetes, which is a parameter here, and machines-endpoints
-- writes the machine list that bmc-log-collector reads. The modules follow the programs.
--
-- Base: the shared types and lemmas. Numbers are native; a Go map is an association list; a call that
--   may fail returns a Result, and a call that changes a state is a function of type Exec, which keeps
--   what was done before an error.
-- LocalPv: local-pv-provisioner/controllers. It finds the devices of a node, makes a PersistentVolume
--   for each, and cleans a device when its volume is released.
--   Deleter: deleter.go, `FillDeleter.Delete`, with int64 written out as bit patterns; Deleter.Wrap
--     takes the wrapping away where sizes stay below 2^63, Content and Labels follow the bytes.
--   Spec: `parsePVSpecConfigMap` of device_detector.go.
--   Volume: the volumes that `createPV` makes, and the conflict test; Volume.Name: `pvName`.
--   Walk: local_device.go. Detector: `do` of device_detector.go. Reconciler: persistent_volume.go,
--   with the volumes that are left in Reconciler.Removes.
-- Admission: admission/hooks, a handler per webhook on decoded requests. Deletion: validate_delete.go,
--   validate_preventdelete.go, validate_namespace_deletion.go; Replicas: the two
--   validate_deployment_replica_count files; PodImages: validate_pod.go; PodStorage: mutate_pod.go;
--   PodCpu: mutate_pod_cpu_request_reduce.go; HttpProxy: validate_httpproxy.go and
--   mutate_httpproxy.go. A reason is a constructor in place of its text.
-- CepChecker: cep-checker/main.go, one pass of the loop over Pods and CiliumEndpoints.
-- BmcLog: bmc-log-collector. Pointer: log-pointer.go over a store of files in which every call may
--   fail; Collector: log-collector.go for one machine; Cleanup: the removal of pointer files, and one
--   tick of main.go with its workers in sequence.
-- NecoExporter: neco-exporter/pkg. Name: `BuildMetricName` of exporter/helper.go; Scrape: one round of
--   `Run` of exporter/exporter.go, with the calls of the collectors' goroutines in any order, and its
--   child Rounds, where rounds follow each other; NicIrq: collector/node/nicirq/collector.go; Labels:
--   collector/cluster/ciliumid/labels.go.
-- TcpKeepalive: tcp-keepalive/internal. Exchange: `SendAndReceive` of client/client.go as a step relation
--   of its two goroutines; Client: its loops, over what the network and the context give; Server: one
--   connection of server/server.go.
-- BucketProvisioner: bucket-provisioner-light/bucketprovisioner/provisioner.go over the calls of S3;
--   BucketProvisioner.NewConfig: config.go.
-- Endpoints: machines-endpoints/pkg/machines-endpoints. Machines: the ConfigMaps and the address
--   lists; Ports: the port options; Slices: the update of EndpointSlices and ConfigMaps; Main: `subMain`
--   and the request to sabakan.
-- S3Gateway: s3gw. AllowDeny: allow_deny.go; Handlers: handler.go over the calls of the S3 client.
-- Squid: squid-exporter/convert.go, the loop and the counters; Squid.Info and Squid.Times: the other two
--   conversions.
-- BmcProxy: bmc-reverse-proxy/pkg/bmc-reverse-proxy/main.go, with the map that machines-endpoints writes.
-- Examples: each result at a concrete input.
--
-- One definition runs on fuel: `delete_all_objects` of BucketProvisioner, whose loop ends when the
-- service gives no further page; more fuel than there are pages is enough. Every other loop is a
-- recursion on the list that it goes through, or on the counter that bounds it; the loops of
-- tcp-keepalive go through the list of what they meet, and have not ended where the list has.
-- Loggers, tickers, flags and the wiring of managers are not modelled, and neither are the other
-- programs of the repository: ceph-extra-exporter, ct-monitor, the probe of envoy, spiffe-test,
-- testhttpd and the further collectors of neco-exporter, nor the Grafana part of admission.
-- Libraries outside the repository are records of operations; where a result needs their documented
-- behaviour, it is a record of laws or a hypothesis.
mod Base
pub mod LocalPv
pub mod Admission
pub mod CepChecker
pub mod BmcLog
pub mod NecoExporter
pub mod TcpKeepalive
pub mod BucketProvisioner
pub mod BmcProxy
pub mod Squid
pub mod Endpoints
pub mod S3Gateway
mod Examples
