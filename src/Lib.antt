-- ===== src/Lib.antt =====
-- ekg, the EPICS to Kafka gateway: commands that arrive on a Kafka topic start and stop the
-- monitoring of EPICS channels, whose updates are sent to Kafka topics.
--
-- The parts and how they interact. CMDController fetches batches of messages from an ISubscriber,
-- makes commands of them with MapToCommand and hands them to NodeController. It stores the acquire
-- commands in the channel repository and gives each command to the worker of its type. The
-- AcquireCommandWorker keeps the topics of each channel and has the EpicsServiceManager monitor the
-- channels that have any; the manager's thread polls the channels and broadcasts their events to
-- handlers, of which the worker's sends each update to the topics of its channel by an IPublisher.
--
-- Which file models what (paths from the root of the repository):
--   Prelude         std::map, lists and Boolean tests that the models share
--   Common          what an expression may do (return, throw, be undefined), the type int, the log
--                   of src/ekg/service/log/ILogger.h, uuid.h, utility.h and broadcaster.h of
--                   src/ekg/common, and src/ekg/service/ServiceResolver.h
--   Command         src/ekg/controller/command/CMDCommand.h and CMDCommand.cpp: Json has the values,
--                   Types the command classes, Serial to_json_string, Parser getCMDType, checkFields
--                   and parse
--   Consumer        src/ekg/controller/command/CMDController.h and CMDController.cpp: one round of
--                   consume, and in Thread the loop, start and stop
--   Epics           src/ekg/service/epics: Channel is EpicsChannel (getData, putData and the end of
--                   a subscription are in Access), Manager is EpicsServiceManager
--   Data            src/ekg/service/data: Repository has the methods of ChannelRepository, Orm the
--                   database library that they call, Storage is DataStorage
--   Node            src/ekg/controller/node: Configuration, Controller (NodeController and
--                   WorkerResolver) and Worker (AcquireCommandWorker), whose Overlap has tasks of
--                   the pool that overlap
--   Pubsub          src/ekg/service/pubsub: Publisher (IPublisher, RDKafkaPublisher), Subscriber
--                   (RDKafkaSubscriber) and Setup (the init of both); Publisher.Memory has the
--                   publisher on pointers that own the messages
--   Options         src/ekg/common/ProgramOptions.cpp: the table of options, parse, and the
--                   configurations
--   Logger          src/ekg/service/log/impl/BoostLogger.cpp
--   Gateway         src/ekg/EKGateway.cpp and src/main.cpp: setup, stop, the exit code;
--                   Pipeline and Stream compose the parts from the messages of commands to the
--                   topics of the worker, Delivery those from the updates of channels to the
--                   producer; System has the steps of all threads in any order; Configured has the
--                   start from the options, Main the signals
--   Tests           concrete instances of the parameters, and the theorems applied to them
--
-- State is passed explicitly: a method takes the object's record and returns it. A definition has
-- the name of its function in this spelling: addChannel is add_channel. Exceptions are values of
-- Outcome, which tells apart what catch (std::exception&) takes from what only catch (...) does; a
-- null or past-the-end dereference is `undefined`, which nothing catches. Methods that hold a lock
-- for their whole body are one step; acquireManagement does not, so Overlap makes two steps of it,
-- its block on the map and its call of monitorChannel, and lets the steps of several tasks
-- interleave. The block is one step there and in Gateway.System, so that their theorems are about
-- the runs in which no two tasks are in it at once; the source locks only the insertion and the
-- removal in it, and Overlap.Block takes it apart. An exception that leaves a task of the pool is
-- caught by nothing and terminates the process: a task ends only when its call of monitorChannel
-- returns, and there is no step behind one that throws. A thread is the number of rounds that it
-- makes before it reads that it is to stop.
-- In Gateway.System the threads run together: a step is a round of the command controller, the
-- beginning or the end of a task, or one channel of a round of the polling thread, which holds the
-- manager's lock from its first channel to its last, so that no task ends in between. Any task that
-- waits may begin next, which leaves open in what order the pool takes them.
-- The PVA client, the database library, the Kafka producer and consumer, the core of the logging
-- library, and the serializer of boost::json are parameters; the records Pvac, Orm, Offsets,
-- Position, Positions, SinkLaws and FilterLaws state, as laws, what the code relies on. The thread
-- commits asynchronously: Offsets and Positions tell what the client was asked to commit, not what
-- the broker has answered.
--
-- Fuel. The loop of EpicsChannel::monitor has one unit more than updates are served before the
-- FIFO is first found empty, those that arrive meanwhile included, and monitor_drains shows that
-- this is enough; an FIFO that is never found empty is left out. getMsg has one unit for each
-- message that is missing and one more: get_msg_returns shows that this is enough when the
-- consumer always answers. flush ends when the queue of the producer is found empty, which the
-- library does not promise: its model answers none when the fuel ends before. The index of
-- processAllChannelMonitor wraps at 2 ^ 32, as a uint32_t.
--
-- Not modelled: how the option library stores the command line, the environment and the file, and
-- the text of the help; the formats of the log sinks; data races, among them that of the block of
-- acquireManagement on the map, which calls operator[] without the lock, and whose erase uses an
-- iterator that another task may have invalidated; and the sleeps of the threads. The thread pool,
-- src/ekg/common/BS_thread_pool.hpp, is a copy of a library, and pushing a task appends it to a
-- list.
pub mod Prelude
pub mod Common
pub mod Command
pub mod Epics
pub mod Data
pub mod Pubsub
pub mod Node
pub mod Consumer
pub mod Options
pub mod Logger
pub mod Gateway
pub mod Tests
