-- ===== src/Lib.antt =====
-- Orc Torrent's desktop client: a model of its TypeScript logic with the theorems about it.
--
-- The program is a Rust daemon (crates) that downloads torrents and an Electron client (ui/desktop)
-- that drives it. The main process (ui/desktop/src/main/main.ts) spawns the daemon, watches it and
-- restarts it. The renderer (ui/desktop/src/renderer) talks to it over HTTP: utils/api.ts sends the
-- requests and retries them, utils/torrentFetcher.ts asks for lists, statuses and files with loops of
-- its own, utils/torrentCache.ts keeps statuses and file lists for a while and joins requests that
-- run, utils/useVpnMonitoring.ts stops torrents when the VPN drops, and lib/infoHash.ts computes or
-- reads the hash that a torrent goes by.
--
-- Files, with the code that each models:
--   Prelude, Prelude/Tests, Prelude/Lists, Prelude/Codes, Prelude/Pieces, Prelude/Assoc: what the others
--     share; Assoc is JavaScript's Map as an association list, Sorting its sort.
--   Types: the unions of ui/desktop/src/renderer/types.
--   InfoHash, InfoHash/*: infoHashFromTorrentBytes of lib/infoHash.ts. `find_marker` is the search for
--     the marker, `turn` one turn of the loop over the bytes, `walk` the loop, `hashed_bytes` the slice
--     that is hashed. Bencode is an independent description of well-formed values.
--   Magnet, Magnet/*: infoHashFromMagnet of lib/infoHash.ts.
--   Cache, Cache/*: the class TorrentCache. `get_content` and `get_status` are its methods up to the
--     promise they return, `content_then`, `status_then` and so on the handlers of a promise. Events
--     interleaves calls with the settling of promises in any order.
--   Daemon, Daemon/*: startDaemonIfNeeded, the handler of the daemon's exit, the restart timers, the
--     health interval, the ipc handlers daemon:start and daemon:restart, and the quit of main.ts. Each
--     async function is cut at its awaits into tasks; Daemon/Events interleaves them.
--   Api, Api/*: utils/api.ts. `fetch_with_retry` is fetchWithRetry, `get_result` and `send_result` are
--     the ends of getJson and of postJson, patchJson and deleteJson; Inflight is the map of requests.
--   Fetcher, Fetcher/*: utils/torrentFetcher.ts, its four retry loops and its batches.
--   KillSwitch, KillSwitch/*: the effect of utils/useVpnMonitoring.ts that watches the VPN.
--   FileTree, FileTree/*: components/FileSelectionDialog.tsx, its tree of directories, its selections and
--     the requests of its confirmation.
--   App, App/*: ui/App.tsx, its refreshes and their schedule, its history of statuses with the
--     completions it reports, and the start of torrents when the VPN is back.
--   LinkQueue, LinkQueue/*: the magnet links of main.ts, from the command line, a second instance or
--     open-url to the renderer.
--   Portfolio, Portfolio/*: the selection, the search and the filters of the torrents' list, in
--     ui/App.tsx, components/torrents/TorrentPortfolio.tsx and TorrentTable.tsx.
--   EventLog, EventLog/*: utils/eventService.ts and the filters of components/EventsPage.tsx.
--   Adding, Adding/*: handleFileChange of components/AddTorrent.tsx and fileToBase64 of utils/format.ts.
--   Ports, Ports/*: cleanupStalePeerPorts, cleanupStaleProcessesOnPort and waitForHealthy of main.ts.
--   Operations, Operations/*: utils/useTorrentOperations.ts, the operations on several torrents.
--   TorrentFile, TorrentFile/*: normalizeTorrentFilePath and handleTorrentFile of main.ts, with the pending
--     slot and the retry interval.
--   Firewall, Firewall/*: addWindowsFirewallRulesBatch, removeWindowsFirewallRule and the ipc handlers
--     firewall:add-rules-batch and firewall:remove-rule of main.ts.
--   Vpn, Vpn/*: detectVpn of main.ts; Vpn/Kept joins it with KillSwitch.
--   Country, Country/*: utils/country.ts.
--   Peers, Peers/*: components/inspector/PeersTab.tsx, its rows and its requests.
--   Trackers, Trackers/*: components/inspector/TrackersTab.tsx.
--   Policy, Policy/*: types/policy.ts, utils/usePolicy.ts and handleToggle of components/SecuritySettings.tsx.
--   Keyboard, Keyboard/*: utils/keyboard.ts and the shortcuts of ui/App.tsx.
--   Format, Format/*: the times and units of utils/format.ts.
--   Files, Files/*: components/inspector/FilesTab.tsx, its loads and its changes of priorities.
--   Shutdown, Shutdown/*: gracefulShutdownIfOwned of main.ts.
--   AddDialog, AddDialog/*: handleTorrentAdded of ui/App.tsx.
--   LogDir, LogDir/*: checkDirectoryPermissions, checkBinaryPermissions and findWritableLogDirectory of
--     main.ts.
-- The files named Tests hold runs of the definitions and the theorems at concrete inputs.
--
-- Conventions. Numbers are natural numbers: sizes, times in milliseconds, bytes, UTF-16 code units. The
-- clock, the platform (fetch, the URL parser, JSON.parse, SHA-1, timers, processes) and the answers of
-- the daemon are arguments or events. A promise, a timer, a task and a process go by numbers. An error
-- is a value.
--
-- Fuel. `walk` of InfoHash has one unit more than there are bytes left, and each turn passes at least
-- one byte. `fetch_torrent_statuses` of Fetcher has one unit for each id, and each batch takes at least
-- one. `binary_from` of Adding has one unit for each byte, and each turn passes at least one.
-- `wait_for_healthy` of Ports has one unit for each 100 ms of the timeout, and each turn takes that long at
-- least. `unit_from` of Format has one unit for each unit of sizes, and
-- `load_files` of Files one for each attempt left. `wait_for_exit` of Shutdown has 26 units: 25 pauses of 120 ms
-- are the three seconds that it waits. The retry loops recurse on the retries left.
--
-- Not modelled: the Rust crates (another language, one of them a patched copy of librqbit), the
-- other React components and hooks, which mostly render, the preload bridge, notifications,
-- logging, the installer and the build scripts. In main.ts the windows, the registry
-- commands and the reading of the log files are left out; for Daemon the answers of a cleanup are part of the
-- environment's answers, and an exception thrown in a start is not followed. The timeouts of single
-- requests are events that `fetch` reports. Error texts are constructors, except in
-- Adding.
pub mod Prelude
pub mod Types
pub mod InfoHash
pub mod Magnet
pub mod Cache
pub mod Daemon
pub mod Api
pub mod Fetcher
pub mod KillSwitch
pub mod FileTree
pub mod App
pub mod LinkQueue
pub mod Portfolio
pub mod EventLog
pub mod Adding
pub mod Ports
pub mod Operations
pub mod TorrentFile
pub mod Firewall
pub mod Country
pub mod Peers
pub mod Trackers
pub mod Policy
pub mod Keyboard
pub mod Format
pub mod Vpn
pub mod Files
pub mod Shutdown
pub mod AddDialog
pub mod LogDir
