-- ===== src/Lib.antt =====
-- A model of Spirit, the Go programs of a small system: a storage layer that nodes share, an agent
-- that runs commands for a language model, a reader of keyboard and mouse, a manager of
-- virtual machines, an overlay on the frame buffer, a graphical interface, the first process and the
-- command-line tools.
--
-- The parts of the program, and the files about them:
--
-- * internal/nodus/cache.go, the LRU cache of a node's files: Nodus/Cache.antt. `Cache` has the map
--   `items`, the list `order` of element pointers, the elements themselves (`cells`) and the
--   counter `used`, an int64 that wraps around. `get`, `put`, `delete_key`, `clear`, `keys`,
--   `cache_size` and `count` are the methods of the same names; `evict_loop` is the loop of `Put`.
--   Below it, Entries and Refine give the abstract cache (a list of entries in order of use),
--   Valid the well-formedness of the pointers, Steps, Evict and Methods what each operation does to
--   both, Reads what a client sees. A file's bytes are slices (Nodus/Slice.antt): an array's
--   address and a length, or nil.
-- * internal/nodus/node.go and internal/nodus/discovery.go, a peer-to-peer node that keeps its files
--   in a cache: Nodus/Node.antt, with the reading of a broadcast's header in Node/Scan and
--   Node/Parse. `Node` has the cache, the known peers and the memory of the arrays. A handler is a
--   function of the bytes that a stream's `Read` returned, and returns the node and what it writes.
--   Node/Transfer lets nodes answer each other. `start_node` and `close_node` of Nodus/Startup.antt
--   are `NewNode` and `Close`, with the mount of the file system (`MountFUSE`, `Unmount`) beside
--   them, each with its errors and the calls that it makes; Startup/Leaks says what they leave open.
--   Nodus/Discovery.antt has how peers are met, Discovery/Peers which are known.
-- * internal/nodus/fuse.go, the file system that shows a node's cache, and asks its peers for what is
--   missing: Nodus/Fuse.antt. `lookup`, `read_dir_all`, `create`, `remove`, `read_all`, `write`,
--   `flush` and `setattr` are the handlers of `Dir` and `File`; handles may share arrays with the
--   cache. Fuse/Contents is about one handle's writes, Fuse/Resize about its changes of size,
--   Fuse/Handles about several handles and nodes, Fuse/Found about what a lookup finds of a file
--   that was stored or removed, Fuse/Inode about `hashString`.
-- * The composition of these: Nodus/System.antt. A system is a node with the files that the kernel has
--   open; an event is a request of the file system, a peer's stream or a new peer, and `reached` what
--   any events lead to. System/Grows, Handlers, Streams and Moves say what each handler does to the
--   memory, the cache and the open files, Sound, Writes and Apart what holds after any events.
-- * Several such systems that send one another their files: Nodus/Cluster.antt. An event is one of a
--   system, the run of a goroutine that sends a file, or the arrival or the loss of a message.
--   Cluster/Pending is about the messages on the way, Delivery about their arrival, Untouched about a
--   node's memory meanwhile, Replicas about what the nodes then have.
-- * cmd/ai/main.go, the agent: Agent.antt has its state, input and trace of events, Commands
--   `executeCommand`, Actions `processAgentActions`, Service `callGemini`, Query `processQuery` and
--   `processOffline`, Session `interactive`. Safety, Tables, Silence, Ending, Answers and Crashes are
--   about these.
-- * internal/input/keyboard.go, the keyboard reader: Input.antt. A step is a round of `readLoop`, a
--   receive from its channel, or `Stop`, and `none` is a panic. Flags, Held and Hotkeys are about it. internal/input/evdev.go, the
--   reader of events: Input/Evdev.antt. The search for the devices in both: Input/Devices.antt, and
--   Search about it. internal/input/mouse.go, the position and buttons of the mouse: Input/Mouse.antt.
-- * internal/hypervisor/libvirt.go and internal/hypervisor/vm.go, the manager of virtual machines:
--   Hypervisor.antt and Hypervisor/Vm.antt, with the definition of a machine as XML. An operation
--   returns its reply with the calls that it makes on libvirt's domains. Address and Calls are about
--   them.
-- * cmd/nexus/main.go, the frame buffer of the overlay: Nexus.antt, with `setPixel`, `fillRect`, the
--   three screens and the loop of `run`. Painting is about rectangles, Screens, Dashboard and Bubble
--   about the screens, Frames about the loop. Its text mode: Nexus/TextMode.antt; the opening and
--   closing of the device: Nexus/Device.antt.
-- * cmd/init/main.go, the first process: Init.antt, with Boot about its start and Restarts about the
--   services that it runs again. What it does is a list of events.
-- * cmd/nodus/main.go, cmd/hypervisor/main.go and cmd/hotkeyd/main.go, the command-line tools:
--   Tools/NodusTool.antt, Tools/HypervisorTool.antt and Tools/HotkeyTool.antt. `main` is a function of
--   the process's arguments that returns what it prints and does. Config is about the configuration
--   file, Requests about the machines.
-- * internal/ui/orb.go, menu.go and hud.go, the state of the graphical interface: Ui.antt,
--   Ui/Menu.antt and Ui/Hud.antt. Clicks is about the orb, Menu/Animation and Menu/Commands about the
--   menu. Ui/Drawing.antt has what they draw, as a list of raylib's calls.
--
-- Prelude has what the others share: Boolean tests and lists on native numbers, int64 words, bytes
-- and what is used of Go's strings and strconv packages, dictionaries. Tests has runs on concrete
-- inputs.
--
-- Parameters: what the peers' streams, libvirt, the language model's service, commands, standard
-- input, the input devices, mounts and other programs reply; SHA-256; the floating-point numbers of the
-- mouse and of the graphical interface, with distances, sines and cosines, conversions and the widths
-- of texts; JSON decoding and `strings.ToLower`; and the bytes that `make` can allocate, above which
-- it panics. Text is a list of bytes. int and int64 are 64 bits wide.
--
-- Loops run on the lists that they range over. The eviction loop of `Put` runs once for each element
-- of the list at most, since each round removes one. The interactive loop of the agent has fuel,
-- a number of rounds, and its session at the end of the fuel is its state after these rounds:
-- standard input may never end, so no number is always enough. The loop of a service of cmd/init has
-- fuel too, a number of runs: one more than the runs that fail is enough, and no number is if all
-- fail. The loop of `run` of cmd/nexus is given by its number of rounds, for nothing in it ends it.
--
-- Not modelled: times of files, timeouts and waits that do not end, what libp2p, the DHT, mDNS and
-- FUSE do inside, what follows the panic of a handler, the endless loop of sleeps of cmd/init, and the
-- waits of cmd/hotkeyd for a signal.
-- A goroutine that sends a file reads the file's memory in one step, though a write may come between
-- two bytes of it. A method that holds its mutex throughout is one step, and so is a handler of the file
-- system or of a stream.
pub mod Prelude
pub mod Nodus
pub mod Agent
pub mod Input
pub mod Hypervisor
pub mod Nexus
pub mod Init
pub mod Tools
pub mod Ui
mod Tests
