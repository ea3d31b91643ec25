-- ===== src/Lib.antt =====
-- NDS3 (Nominal Device Support, version 3): a library between device drivers and control systems. A
-- driver builds a tree of nodes with process variables (PVs) and state machines; the library gives
-- them names, passes values on between PVs and to the control system, and runs the transitions of the
-- state machines.
--
-- The parts of the program and their files. Paths are from the root of the repository.
--
-- Types: the enumerations of include/nds3/definitions.h and the exceptions of include/nds3/exceptions.h.
--   A text is the list of its bytes; an exception is its class, without the message.
--
-- StateMachine: src/stateMachineImpl.cpp. The record StateMachine has the members of the class, and the
--   device's functions act on a world that is a parameter. set_state, begin_transition,
--   execute_transition and the thread's execute_transition_thread follow the functions of these names.
--   The children: the diagram of the states apart from the code (Diagram), the outcome of one transition
--   (Steps), of one request (Requests) and of the thread (Threads), the interleavings of callers, threads
--   and the device under the machine's mutex as a step relation (Interleaving) with the
--   ways on from what they reach (Liveness), and canChange and isAllowedTransition (CanChange).
--
-- Node, Building: src/nodeImpl.cpp, src/baseImpl.cpp and src/portImpl.cpp. A tree is a value, its
--   children in the order of the map m_children. Node has the global state of a tree and the log levels.
--   Building has addChild, setParent and the full names, for which an object comes with those above it.
--
-- External: buildFullExternalName of src/nodeImpl.cpp, src/pvBaseInImpl.cpp, src/pvBaseOutImpl.cpp and
--   src/portImpl.cpp, an object with those above it. Its children treat objects below a port (Ports) and
--   control systems without naming rules (Plain).
--
-- World, Initialize, Deinitialize: initialize and deinitialize of src/baseImpl.cpp, src/nodeImpl.cpp,
--   src/portImpl.cpp, src/pvBaseImpl.cpp, src/pvBaseInImpl.cpp, src/pvBaseOutImpl.cpp and
--   src/stateMachineImpl.cpp, by recursion on the tree. World is what they act on: the registry of the
--   PVs, the devices, and the calls that the control system has had, which are taken to return. They end
--   well, with an exception, or with the end of the process. Initialize.Plan is the tree's plan: its
--   actions as one list, which the world does not shape. Deinitialize takes the objects to have been
--   initialized, without which the source follows a null pointer; its children compare the registry and
--   the tree before and after. The child Lawful of each is about the consistency of the registry.
--
-- Registry, Push: src/ndsFactoryImpl.cpp and src/pvBaseInImpl.cpp. An address stands for a pointer to a
--   PV, and memory is a function from addresses. Registry has the two maps of registered PVs with the
--   links between PVs; its child History is a step relation of all the calls. Push is the push of one
--   value: to the control system with decimation, to the subscribed output PVs, and to the PVs that it is
--   replicated to. How a write to an output PV ends is a parameter, which may look at all that was pushed and
--   written before: an exception ends the push, and so does the end of the process. The count of the decimation is a uint32_t and wraps at 2 ^ 32. A push runs on fuel,
--   which a rank that falls along the replication bounds; a PV whose mutex the thread holds already is a
--   deadlock, and so a result of its own.
--
-- Values, Attributes: the values of the PVs, src/pvBaseImpl.cpp, src/pvBaseInImpl.cpp,
--   src/pvBaseOutImpl.cpp, src/pvVariableInImpl.cpp, src/pvVariableOutImpl.cpp, src/pvDelegateInImpl.cpp,
--   src/pvDelegateOutImpl.cpp and src/pvActionImpl.cpp. Values has the calls of read and write, which the
--   classes override for one data type and pass on between types of bytes, the variable PVs, and setValue
--   with the subscribers, which are variable output PVs or give the value to a function of the device; what
--   such a function does to the device is a parameter, and so is `double`. Its child DataTypes has getDataTypeForCPPType of
--   include/nds3/impl/pvBaseImpl.h. Attributes has the constructors and setters.
--
-- Commands: the tables of commands that the constructors fill, what the commands call, and getTimestamp
--   of src/baseImpl.cpp.
--
-- Acquisition: src/dataAcquisitionImpl.cpp with the children of src/stateMachineImpl.cpp, by addChild of
--   Building; onStart sets the decimation of Push.
--
-- LogStreams: src/logStreamGetterImpl.cpp, and getLogger of src/baseImpl.cpp. The keys for the threads'
--   own values and the control system's createLogStream are the record Pthreads of operations, with what
--   is documented of them in Documented.
--
-- Threads: src/threadStd.cpp, src/threadBaseImpl.cpp and src/thread.cpp with the functions runInThread.
--
-- Oscilloscope, MultiChannel: the example devices doc/examples/oscilloscope/oscilloscope.cpp and
--   doc/examples/oscilloscopeMultiChannel/oscilloscopeMultiChannel.cpp. The trees are made with the
--   constructor of Acquisition and addChild of Building, and the transition functions of a wave are those
--   of a StateMachine, with onStart of Acquisition. Oscilloscope.Acquiring is the step relation of a wave's
--   machine and its threads, in which the function of a transition runs in one step and the machine takes its
--   end in a later one; whether the system can launch a thread may change at any time, and a request that
--   gets none leaves the machine in the intermediate state. An acquisition
--   loop reads the flag and the amplitude from a list, an entry for each round, so that it needs no fuel;
--   the sine with its conversions is a parameter. MultiChannel runs its threads by Threads, and its child
--   AsWave compares a channel with a wave.
--
-- Tango: the parts of src/tangoInterfaceImpl.cpp that do not call the TANGO library: the state of a device,
--   by Node's global state, the conversions of time, and the attribute for a type of PV.
--
-- Devices, Drivers, Folders: src/factoryBaseImpl.cpp and src/ndsFactoryImpl.cpp. Devices has the devices
--   of one control system and the nodes that it holds; the driver's allocation function is a parameter
--   from state to state, since it calls the library again. Drivers has the drivers and control systems
--   of the process, with the symbols of a module and the names in a directory as functions. Folders has
--   the two routines on lists of folders and files. Drivers.create_with is the allocation that
--   Devices.create_device takes.
--
-- IniFile, Printf, Naming: src/iniFileParserImpl.cpp and src/factoryBaseImpl.cpp. A position of
--   std::string is an option, where none is npos. IniFile has the parser, one function for each of the
--   class's, and `throw;` outside a handler is a result of its own, for it ends the process. A search for
--   an unescaped character runs on a round for each byte, which is enough since each round starts behind
--   the last. Its child Lines writes single lines and reads them again, Written and Files whole files.
--   Naming chooses the rule and the separator, and Printf is snprintf with one string.
--
-- Prelude: the shared names, Boolean tests, lists, signed integers, and maps as lists in the order of
--   their keys. Tests: concrete runs and instances.
--
-- Not modelled: the rest of src/tangoInterfaceImpl.cpp and src/tangoFactoryImpl.cpp, which talk to a
--   library outside the repository and name functions that the repository's headers do not declare; what
--   is written to a log stream; the public classes such as src/node.cpp, which pass each call on, with the
--   pointers that their copies share; the examples rpcSquare and thermometer; and the text of messages.
mod Prelude
pub mod Types
pub mod StateMachine
pub mod Node
pub mod Building
pub mod External
pub mod World
pub mod Initialize
pub mod Deinitialize
pub mod Registry
pub mod Values
pub mod Push
pub mod Attributes
pub mod Commands
pub mod Acquisition
pub mod Oscilloscope
pub mod Threads
pub mod MultiChannel
pub mod Tango
pub mod Folders
pub mod IniFile
pub mod Devices
pub mod Drivers
pub mod Printf
pub mod LogStreams
pub mod Naming
mod Tests
