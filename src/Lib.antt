-- ===== src/Lib.antt =====
-- The Navtech radar SDK in cpp_17: how messages of the Colossus protocol are built, checked, sent,
-- received and handed over to the program, how the program finds peaks in the data, and how the ROS 2
-- nodes publish it.
--
-- Parts and files:
-- - NetConversion.antt: cpp_17/utility/net_conversion.cpp and .h, words in host and network order.
--   A float or a double is its bit pattern, and the machine is little-endian.
-- - Colossus/Kind.antt: the enumeration Message::Type. Colossus/Message.antt: the class Message of
--   cpp_17/network/colossus_network_message.cpp and .h. The member functions keep their names; a
--   mutator that shares its accessor's name has the prefix set_, `kind` is type(), and
--   `append_header` is the template append(). A read or a write outside the buffer gives `none`.
-- - Colossus/Overlay.antt: the templates of cpp_17/network/colossus_message_base.h, which are laid over
--   the bytes of a message. Colossus/Messages: the classes of cpp_17/network/colossus_messages.h.
--   The product and the quotient of two floats are a parameter.
-- - ThreadedQueue.antt: cpp_17/utility/threaded_class.cpp and threaded_queue.h. One function is one
--   stretch under the lock; ThreadedQueue/History.antt has sequences of them.
-- - Socket.antt: the class Tcp_socket of cpp_17/network/tcp_socket.cpp. The answers of the system calls
--   are arguments, and those of recv a list, each with what other threads did meanwhile.
-- - TcpClient.antt and TcpClient/Reader.antt: the class Tcp_radar_client of
--   cpp_17/network/tcp_radar_client.cpp. The client owns a queue and a socket; its connect thread
--   opens the socket, its read thread cuts the stream of bytes into messages and enqueues them.
-- - SectorBlanking.antt: cpp_17/navigation/sector_blanking.cpp. RadarClient.antt and
--   RadarClient/Handlers.antt: the class Radar_client of cpp_17/network/radar_client.cpp, which owns a
--   TCP client, builds the requests and calls the callbacks. Floating point and the parsing of
--   protocol buffers are the record Outside, a parameter; a call of a callback is an entry of a list.
-- - TcpClient/Decode.antt: how a stream is to be cut into messages, as a relation that mentions no
--   thread, and TcpClient/Queued.antt what of it a queue holds. RadarClient/Delivery.antt:
--   the read thread, the queue and the radar client in a row.
-- - ThreadedQueue/Race.antt and TcpClient/Shutdown.antt: the steps of the threads where the order of
--   steps that are not under one lock matters, enqueue() against stop() and stop() against the
--   connect thread. A step relation has a constructor for each step, and Reach is a run of steps.
-- - IpAddress.antt: the class IP_address of cpp_17/utility/ip_address.cpp, a word and its text.
-- - Timer.antt: the class Timer of cpp_17/utility/timer.cpp, over what the clock reads.
-- - PeakFinder.antt, PeakFinder/Search.antt and PeakFinder/Resolve.antt: the class Peak_finder of
--   cpp_17/navigation/peak_finder.cpp, and vector_maths.h beside it. The operations on doubles are the
--   record Doubles, a parameter. A read outside an array is `none`.
-- - Cndp.antt and Cndp/Headers.antt: the messages of the older C++ edition, cpp/cndpnetworkdatamessage.h,
--   cndpconfigurationmessage.h and cndpfftdatamessage.h, which the same radar speaks.
--   Cndp/Client.antt: the class RadarClient of its cpp/radarclient.h and .cpp, and Cndp/Navigation.antt
--   the handler of navigation messages. Of its TCP client they have what was sent. The rounding of a
--   contour is a parameter.
-- - Ros2: the nodes of ros2/src/nav_ros/src, which publish what the radar client delivers. Int, Window,
--   Rotation, Configuration and Cloud are what the nodes repeat: the integers of ROS, the parameters
--   and their checks, the count of rotations, and two messages. PointCloud.antt is
--   point_cloud_publisher.cpp, NavigationCloud.antt and Tuning.antt are
--   navigation_mode_point_cloud_publisher.cpp, LaserScan.antt is laser_scan_publisher.cpp, BScan.antt
--   is b_scan_publisher.cpp, and Colossus.antt is colossus_publisher.cpp and colossus_subscriber.cpp.
--   What is published on a topic is a list, and the store of parameters is a record. A handler takes
--   what a callback of RadarClient.antt is given, and `on_report` and `run` bind them as main does.
-- - Base: the shared helpers. Witnesses: runs of the theorems on concrete inputs.
--
-- Bounds: `drain` has a round for each item and one more. `peaks_loop` has a round for each bin and
-- one more, since each round moves on by a bin at least. `read_thread` is on rounds, and
-- TcpClient/Fuel.antt says how many are enough. A run whose list of answers is used up waits in recv.
--
-- Not modelled: logging and the time limits of the socket, which only call the system; the arithmetic
-- of floats and the library of protocol buffers, which are parameters; the TCP client, the queue and
-- the timer of the older C++ edition, which those of cpp_17 replace; the nodes for ROS 1, the ROS 2
-- nodes that call OpenCV or only log, and the clients in other languages.
pub mod Base
pub mod NetConversion
pub mod IpAddress
pub mod Colossus
pub mod ThreadedQueue
pub mod Socket
pub mod TcpClient
pub mod Witnesses
pub mod SectorBlanking
pub mod RadarClient
pub mod PeakFinder
pub mod Timer
pub mod Cndp
pub mod Ros2
