-- ===== src/Lib.antt =====
-- The network examples for the ESP32, as far as they are programs of their own: each example is a
-- small program over a library or the sockets of the system, and they do not call each other.
-- What a program calls outside this repository is a parameter: a library as a record of functions
-- with its documented behaviour as a hypothesis, or a system that answers each call, where an
-- answer may depend on all calls before it (Os). The run of such a program is a function from the
-- trace of calls to its result and the longer trace; theorems on it hold for every system.
--
-- Prelude: lists over native numbers, buffers of a fixed size where a write past the end is a
--   fault, C strings, integers, bits.
-- Os: the runs, with Descriptors, which counts what a run opens and closes, and Tasks, the clients
--   that connect again and again.
-- Aead: ascon/components/crypto_aead with its providers (provider_mock.c as Mock,
--   provider_aes_gcm.c and provider_chacha20poly1305.c over mbedTLS as Mbedtls, provider_ascon.c and
--   ascon_wrapper.c as Ascon), ascon/sender/main/sender.c (Sender) and ascon/receiver/main/receiver.c
--   (Receiver). A provider is the record Provider, and IsAead is the contract that the sender and
--   the receiver rely on (EndToEnd). A loop of the sender or the receiver is modelled by a number of
--   rounds, since it has no end of its own.
-- EchoServer: lwip-intro/sockets/tcp_server.c. tcp_server_task is tcp_server_task, with one function
--   for each of its parts. The turns of its main loop, and of the loop of socket_send, are numbers:
--   a run that needs more is a value of its own (serving, or stuck).
-- TcpClient: lwip-intro/sockets/tcp_client.c, by the names of its functions.
-- RcvWnd: lwip/rcvwnd_issue/tcp_client/main/tcp_client_v4.c, a client with a small receive window.
--   At most 100 attempts are made to receive, and this number is the fuel of its loop.
-- Hooks: lwip_output_hooks/tcp_client/main: lwip_ip_output_wrap.c (Output), tcp_client_v6.c with its
--   choice of an interface (Interfaces), and tcp_client_v4.c (Client). The stack below the hooks is a
--   parameter.
-- Disconnect: devcon22/demo_3_sockets/main/tcp_client.c, a client that watches its link.
--   The turns of the clients' outer loops (tcp_client_task and tcp_client of these four programs) are
--   numbers, since the loops have no end of their own.
-- Ssh: libssh/tests/simple_ssh_server.c, and libssh/examples/server/main/server.c, which is the same
--   program with fixed options (Listening, which has the set-up of both). libssh answers the calls
--   of main, and makes the callbacks of authentication and of the channel while it is polled. The
--   loop that waits for a client ends by itself, within 100 polls; the polls of an open channel and
--   the clients are numbers, as above.
-- Iot: fuzz-me/sample/iot_parser.c, on texts: a C string is its bytes in front of the NUL.
-- Mdns: avahi-test/main/avahi-port/socket.c, for IPv4, and iface-esp32.c beside it (Monitor).
-- Async: async-server/server/main/async_server_pthread.c, the thread of a client (Async) and the
--   accept loop with its threads, which take turns as a schedule says (Threads), where a turn that
--   accepts also says what malloc and pthread_create answer; and server.c beside it, the statistics
--   (Stats). The length of the file bounds the turns of a thread's loop, since
--   each takes a byte at least. async_server_coroutines.cpp is EventLoop, over any type of tasks, and
--   Coroutines on it. The worker and the main thread take turns; a turn of the worker has a time, and
--   a place of the queue that decides between tasks that are due at the same time. Weights measures
--   the tasks that are left, and Draining the turns that they take.
-- Bacnet: backnet-sever/main/main.c, over the BACnet stack and the clock as parameters. The turns of
--   the task are a number, as above. Network is the handlers of events in wifi_init.c and eth_init.c,
--   with the socket of bip_init.c; both follow a link that is up or down.
-- Station: reflection/main/station_example_main.cpp, the handler of the events of Wi-Fi, and the wait
--   for its bits, where some events come before the wait and others during it; and the text of a
--   structure (Settings), whose members are a list, as reflection gives them.
-- Plc: plctag/simple/main/simple.c.
-- Netifs: devcon22/demo_2_netifs/wifi_2_netifs/main/softap_example_main.c, the handlers of its events,
--   which run in the event task one behind the other, and its main task. The two tasks take turns of
--   one call each, as a schedule says.
--
-- Not modelled: what is printed for a log; start-up of Wi-Fi, Ethernet and the network interfaces
-- (app_main of devcon22 and async-server, eth-dhcps, pppoe, dhcp-vendor-spec, network_init of
-- backnet-sever, lwip-intro/default_netif.c, avahi-test/main/avahi-test.c), and the handlers of
-- devcon22/demo_1_events and demo_2_netifs/sta_to_eth, which print, pass a call on or set a bit; the
-- programs in Python; copies of examples of other projects (libssh/tests/samplesshd-cb.c,
-- lwip-intro/sockets/socket_examples.c); headers of a configuration.
pub mod Prelude
pub mod Os
pub mod Aead
pub mod EchoServer
pub mod Ssh
pub mod Mdns
pub mod Async
pub mod TcpClient
pub mod Iot
pub mod Plc
pub mod RcvWnd
pub mod Hooks
pub mod Disconnect
pub mod Bacnet
pub mod Station
pub mod Netifs
