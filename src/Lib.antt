-- ===== src/Lib.antt =====
-- llmtune, a manager of llama.cpp servers on the AMD BC-250: a model of its core.
--
-- The program is a Rust binary. It discovers GGUF model files, chooses a launch profile for each, writes
-- a systemd drop-in that starts `llama-server`, and swaps the served model with a health check and an
-- automatic revert. A proxy and a command call `nodeops::load`, which finds a model, chooses its profile
-- and hands both to `swap::swap`; a cluster launches its head the same way, with workers around it.
--
-- Which file models what:
--
--   Config           src/config.rs: the record of a node
--     Raw            the TOML file as records
--     Address        IPv4 addresses and `subnet_base`
--     Checks         its tests of single values
--     Netboot        `resolve_netboot_with`
--     Fleet          `from_raw` and the lookups
--   Model            src/model.rs: the record of a model file; tests on names and architectures
--     Gguf           the reader of GGUF headers (`rd_val`, `read_gguf_meta`, `has_mtp_tensors`, `load`)
--   Build            src/build.rs: where the current version of a managed build is found
--     Slug           `slug`
--     Versions       the directories of a build, `gc` and the link to the current version
--     Newest         which ledger entries are the newest, for comparison
--     Install        `install` and `rollback`
--   Profile          src/profile.rs: profiles, `validate`, `resolve` and `Profile::launch`
--   Swap             src/swap.rs, in these modules:
--     Seams          `Actuator`, `Health`, `SwapOpts`, `poll_health`
--     Contract       what the comments on `Actuator` promise of one attempt, as a record of laws
--     Core           `swap`, cut at its early returns
--     Env            `render_dropin`, `merged_env`, `parse_unit_env`
--     Flags          `adjust_flags`, `strip_mtp_flags`
--     Dropins        `collect_dropins`, `winning_name`
--     Mounts         `etc_units_writable_from`, `mounted_ro`
--     Clear          `clear_dropin`
--     Systemd        `SystemdActuator`; its Swapped: `swap` over it, which fills the Contract
--   Cluster          src/cluster.rs, in these modules:
--     Parity         `check_parity` and the texts of a launch
--     Up             `up`, cut at its early returns, and `teardown`
--     Down           `down`
--     Tally          a machine that counts which workers start and stop
--   Netboot          src/netboot_server.rs, in these modules:
--     Ports          the ports, their tokens, and the rules of each firewall
--     Record         `UpState`
--     Open           `open_firewall`
--     Close          `remove_firewall`
--     Down           `down`, where there is a record
--     Reach          `diagnose`
--   Nodeops          src/nodeops.rs: `resolve_model`, `parse_bind` and `load`
--     Matching       what it is for one model alone to hold a query, for comparison
--   Proxy            src/proxy.rs: `SwapGate` and `ensure_served`
--   Transport        src/transport.rs: `sh_quote` and `ssh_argv`
--     Shell          how a POSIX shell splits a line, for comparison
--   Prelude          texts, paths, maps and decimal printing, as the program uses them of `std`
--   Tests            runs at concrete inputs
--
-- How the code is read. A text is the list of its code points. `to_lowercase` changes ASCII letters
-- only; white space is that of Unicode. A `BTreeMap` is an association list in the order of its keys.
-- An `anyhow::Error` is its message. Code that acts on the machine takes the machine, a value of any
-- type `W`, and returns it: `Actuator`, `Health` and the clock are records of such functions. Durations
-- are in nanoseconds. Loops over a list are recursions on it, and a counted loop recurs on the rounds
-- that are left, so no fuel is needed; decimal printing has fuel above the number itself. The prefix
-- loop of `parse_bind` may run once for each character of the text.
--
-- An IPv4 address is its number; a word has 32 bits, its shifts drop what goes beyond, and `&` is taken
-- bit by bit. File commands, firewall commands and the saving of the netboot record may fail at any
-- call, which the records of functions answer. The ports of firewalld are those of its permanent
-- configuration; what runs between a change of it and the next reload is not modelled.
--
-- A GGUF file is the list of its bytes; its strings stay bytes, and a float is its bit pattern. The two
-- regular expressions on file names are arguments. What is not under src/ (systemd, HTTP, flock, TOML)
-- is behind the records `Actuator`, `Health`, `Station`, `WorkerCtl`,
-- `Shell`, `Root`, `Host`, `Disk`, `Builder` and `Fs`. A panic is `none`. A Mutex
-- makes each method of the gate one step.
--
-- Not modelled: the terminal interface, the command line, the images of netboot and how its services are
-- started, the compiler runs of a build, measurements, and the parts of each file above that run processes or walk
-- directories.
pub mod Build
pub mod Cluster
pub mod Config
pub mod Model
pub mod Netboot
pub mod Nodeops
pub mod Prelude
pub mod Profile
pub mod Proxy
pub mod Swap
pub mod Tests
pub mod Transport
