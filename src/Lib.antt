-- ===== src/Lib.antt =====
-- The verification library of saced, the Service And Command Excutor daemon for Android.
--
-- A client asks saced over a socket or a binder to run a command on a pipe (a normal command), to
-- run and watch a service, or to register an event whose triggers start a command. A reader
-- thread turns the request into a message, the dispatcher hands it to the executor of its kind,
-- and the executor's own thread works through its queue and answers through the message's writer.
--
-- Files and what they are about, with paths from the repository's root:
--   Prelude   names shared by all modules: tests on numbers, lists, texts as lists of bytes, and
--             std::map as an association list in the order of its keys.
--   Types     libsace/SaceTypes.h, libsace/include/sace/SaceServiceInfo.h, saced/SaceMessage.h,
--             saced/SaceWriter.h: enumerations, records, the bytes of a result's extra field.
--   Objects   constructors, copies and assignments of libsace/SaceTypes.h over buffers and the union,
--             and the numbers of commands. The other modules read an object as a record of Types,
--             which is its view.
--   Names     the map...Str and to_string functions of libsace/SaceTypes.cpp,
--             libsace/SaceServiceInfo.cpp and saced/SaceMessage.cpp (Messages).
--   Service   class SaceServiceExcutor of saced/SaceExcutor.h and .cpp. State is the object,
--             Monitor is monitor_service_status, Handlers the arms of excuteNormal, Excute the calls
--             of the thread. The other modules prove.
--   Normal    class SaceNormalExcutor and sace_popen and sace_pclose of saced/SaceExcutor.cpp.
--             remove_vecotr_item, startNormalCmd and closeNormalCmd are in Handlers.
--   Dispatch  saced/SaceCommandDispatcher.cpp, typeCmdToMsg of saced/SaceReader.cpp, and class
--             SaceExcutor. Queue has the queue, the semaphore and the thread as steps that interleave,
--             Setup init and uninit, Routing handleMessage, Shutdown the dispatcher's thread and stop.
--   Params    libsace/SaceParams.cpp, libsace/include/sace/SaceParams.h, and handle_child_params and
--             set_proc_capability of saced/SaceExcutor.cpp. The password file, the C library, the
--             library of capabilities and the kernel's calls are parameters.
--   Wire      libsace/SaceTypes.cpp and the parcel part of libsace/SaceParams.cpp. Binder's Parcel is a
--             parameter: what is written is a list of writes, and a law for each read.
--   Writers   saced/SaceWriter.cpp: what a socket writer sends, and the binder writer.
--   Sender    class SaceSocketSender of libsace/SaceSender.cpp. Steps has excuteCommand,
--             handleResult and handleResponse as steps of the client's thread and the receiving
--             thread, Setup init and uninit, Arrival a round of the receiving thread with its buffer
--             of 1024 bytes.
--   Startup   saced/SaceCommandMonitor.cpp and saced/sace_main.cpp: the readers together and the main
--             thread, as a list of what is started and stopped.
--   Ini       the event file in saced/SaceEvent.cpp. File has read_ini_file with its buffer, Lexing
--             trim_space_char and next_token, Attributes parse_service_attr, Sections
--             parse_event_from_ini, Names the tables of capabilities and limits. The extraction of
--             words from a stringstream is a parameter. Whole has the lines of the file as the
--             reference for File and Lines the text that gives such lines; Boot shows that the
--             reading returns, with the boot trigger of each event, by Paired.
--   Events    class SaceEvent of saced/SaceEvent.cpp. Loading has onInit, Handlers the messages of
--             clients, Monitor the event thread, Pipe its pipe and SaceEventWriter, Saving the event
--             file, Ending onUninit; Registry is the specification that Refinement proves, Tracking
--             follows an event through the service executor. Written has the lines that are
--             saved, AttributeLines what the reader makes of them, and Restored both together.
--   Reader    saced/SaceReader.h and .cpp: the table of socket clients and a round of the monitor thread
--             (Sockets), its start, end and loop (Monitor), the binder service (Binder). What the
--             system answers during a round is a record. A read takes at most 1024 bytes.
--   Remote    libsace/ISaceManager.cpp and libsace/ISaceListener.cpp: what the proxies write (Proxies)
--             and what the stubs do with it (Stubs), and SaceBinderSender of libsace/SaceSender.cpp
--             (Sender). An ISaceManager is a record of operations; Calls reaches one over Binder, which
--             renumbers the descriptors of a reply, and Daemon has the binder service of Reader as one.
--   Client    libsace/SaceManager.cpp, libsace/SaceObj.cpp, libsace/include/sace/SaceObj.h: the objects
--             of commands and services (Objects), the indexes and the responses (Manager), what a
--             client asks (Requests). The sender is a parameter; Daemon has one that is answered by
--             the service executor.
--
-- How the code is read. An object's member variables are a record and each operation is a function
-- from the state to the state. What the daemon does to the outside (signals, results, responses,
-- closed descriptors, waited children) is a trace in the state, in order. A pointer to a service
-- or a command is an address into a heap, which is also the label that clients hold, as in the
-- code. Undefined behaviour, such as a freed object that is read or an iterator used after it was
-- invalidated, is the answer none, so that a theorem that an operation returns says also that it
-- is free of it. What the system answers (a new address, fork, waitpid, time) is an argument.
-- Every loop runs over a finite list and is structural recursion, so no fuel is needed; but the loop
-- of read_ini_file takes fuel for one round more than the file has characters, which is enough since
-- every round but the last takes one at least. Labels are
-- 64 bits wide, and a theorem that reads one back from bytes asks that the address is below
-- 256 ^ 8.
--
-- Not modelled: of the child between fork and exec its name and its death signal, the C++ standard
-- library, Binder, Parcel, Looper, property service and the kernel, the Java client with its JNI,
-- the program of src/tests, and the sepolicy and build files.
pub mod Prelude
pub mod Types
pub mod Names
pub mod Service
pub mod Normal
pub mod Dispatch
pub mod Params
pub mod Wire
pub mod Writers
pub mod Sender
pub mod Startup
pub mod Ini
pub mod Events
pub mod Reader
pub mod Remote
pub mod Objects
pub mod Client
