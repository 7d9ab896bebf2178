-- ===== src/Lib.antt =====
-- The NGINX Loadbalancer for Kubernetes: it watches the Services of a cluster and keeps the
-- upstreams of one or more NGINX Plus hosts, outside the cluster, in step with them.
--
-- The parts, in the order in which an event passes through them:
--   internal/observation     the watcher turns a callback of an informer into an Event and queues it;
--                            the handler takes Events off its queue, has them translated, and passes
--                            the outcome to the synchronizer          Observation/, Pipeline
--   internal/translation     an Event becomes ServerUpdateEvents, for each of its ports whose name
--                            has the prefix "nlk-"                        Translation, Translation/
--   internal/synchronization the synchronizer copies each for every host, queues the copies with a
--                            jitter, and its workers send them to NGINX Plus, with retries
--                            Synchronization/ (World, Queueing, Delivery, Worker, Random, Retries,
--                            Survival, Drain, Load, Upstreams)
--   internal/application     the border clients, which call the NGINX Plus API     Application,
--                                                                                  Application/
--   internal/communication   the HTTP client of such a call                        Communication
--   internal/authentication  the tls.Config for the configured TLS mode            Authentication
--   internal/certification   the certificates and keys, from the Secrets of the namespace "nlk"
--                                                                                  Certification/
--   internal/configuration   the settings, from the ConfigMap "nlk-config"         Configuration/
--   internal/probation       the health checks                                     Probation
--   internal/core            the events that the parts exchange                    Core
--   cmd/nginx-loadbalancer-kubernetes/main.go   the Kubernetes client, the order in which all is
--                            started, and the goroutines side by side
--                                                              KubernetesClient, Main, System/
--   cmd/configuration-test-harness, cmd/certificates-test-harness, cmd/tls-config-factory-test-harness
--                            programs that try out single parts                        Harness/
--
-- How the code corresponds to the definitions. A Go function keeps its name, in lower case with
-- underscores, in the module of its package; a struct is a record, a set of constants a data type
-- with one more constructor for the ints that no constant names. A function that returns an error
-- or may panic gives a `Result`: ok, err with the message, or panic with the runtime's message. A
-- method that changes state is a function `Exec S A` from the state to a result and the next state.
-- Logging is left out, the level of the logger is not. Base, Text, Result, Exec and GoMap are shared:
-- Text has what the code uses of strings and fmt, GoMap is an association list without an order that
-- the program reads. Times are natural numbers, in nanoseconds or, for the jitter, in milliseconds.
--
-- What is not part of the repository is a parameter: the API server and client-go's informers
-- (Kubernetes), its search for a configuration (KubernetesClient, Harness/Client), client-go's work
-- queues (WorkQueue, with what their documentation promises of the count of requeues, of the items
-- that a queue holds and of those that it still has to give), the NGINX Plus client
-- (NginxClientInterface in Application, NginxPlus in Synchronization/World; ServesUpstreams in
-- Synchronization/Upstreams has what its documentation promises of the upstreams: after an update that
-- succeeds the upstream has the servers of the list in some order, a deletion takes one server out, no
-- call touches another upstream; several URLs may reach one instance), crypto/tls, crypto/x509 and
-- encoding/pem (Crypto in Authentication), and math/rand, an arbitrary stream of numbers (Random in
-- Synchronization/Random).
--
-- Pointers are modelled where a property depends on them: a queued ServerUpdateEvent is a `Ref`, an
-- address with its value, and http.DefaultTransport is an address in a store of transports that all
-- HTTP clients share.
--
-- The goroutines (System) are a list of actions, in any order: a callback of one of the three
-- informers, or a worker that takes an item off its queue, or one that finishes an item it has taken.
-- Any number of workers may have an item in work. The handling of one item is one action: the finer
-- orders of two goroutines that handle an item at the same moment are not told apart. System/Crew has
-- the workers themselves, as many as the settings have threads (Workers), each idle or busy with an
-- item; System is the view of it that forgets which worker has an item (System/Crew/Simulation).
--
-- The loops over slices are structural recursions. The endless loop of a worker runs on fuel, one
-- unit for each round (Synchronization/Worker); a run that uses up its fuel ends in `running`, with
-- the state reached, so that a statement about every fuel is one about every prefix of the loop.
-- Enough fuel is more than the turns that the queue still owes (owes, in Synchronization/Drain): each
-- item may be tried retry_count + 1 times, counted anew for the items behind one that is dropped.
-- System/Rest needs no fuel: it measures what all workers together have before them (Load), and
-- System/Rest/Reached follows their turns to the end.
--
-- A context is context.Background or one that is cancelled (Context): the first goroutine of the program
-- waits for the end of the former for ever. The goroutine of the certificates runs before main has
-- started everything: the callbacks that it makes while the settings are initialized are an argument of
-- Initialize (Configuration/Startup, Certification/Noticed), the later ones are actions of System.
--
-- Not modelled: logging, contexts otherwise, the listening of the HTTP server of the
-- health checks, and the doubles under test/mocks, which only the unit tests use.
pub mod Base
pub mod Text
pub mod Result
pub mod Exec
pub mod Context
pub mod GoMap
pub mod Core
pub mod Kubernetes
pub mod Certification
pub mod Configuration
pub mod Application
pub mod Authentication
pub mod Communication
pub mod Translation
pub mod WorkQueue
pub mod Workers
pub mod Synchronization
pub mod Observation
pub mod Probation
pub mod Pipeline
pub mod System
pub mod Harness
pub mod KubernetesClient
pub mod Main
pub mod Tests
