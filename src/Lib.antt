-- ===== src/Lib.antt =====
-- musiTui, a music player for the terminal: its command language, its playback and decoders, its
-- library, its daemon and the buffers and formats they stand on.
--
-- The program. A command is a line of text, typed into the terminal interface or sent over a
-- Unix socket by `musiTui ctl <command>` (src/ipc: the client quotes its arguments into one
-- line, and the server hands the line to the dispatcher). `CommandDispatcher::execute`
-- (src/commands) takes the line apart and calls the library service, the configuration and the
-- screen; its result goes back as one line of JSON (src/util/Json.h). The service drives the
-- player (src/player), where the `PlaybackController` has two parts: the `SongQueue` holds the
-- playlist and validates coming songs ahead in a thread of its own, and the `PlaybackEngine`
-- owns a decoder, a decode thread, a ring buffer (src/util/RingBuffer.h) and a sink
-- (src/audio/SdlAudioSink.cpp). The decode thread writes samples into the ring buffer, and the
-- audio callback reads them out. The decoders (src/decode) wrap dr_wav, dr_flac and minimp3. What
-- the user is to be told goes through the `NotificationBus` (src/events). The process is either the
-- screen (src/App.cpp) or a daemon without one (src/Daemon.cpp); both answer the control server and
-- watch the directory of the library (src/util/DirectoryWatcher.cpp).
--
-- Files, by the code they model:
--   Base        shared notation, integers, byte strings, decimal text, and facts about binary digits
--   Util        Util.RingBuffer: src/util/RingBuffer.h (`write`, `read`, `clear`, `init` for the
--               constructor, `next_power_of_two`); Util.Json: src/util/Json.h (`append_string`,
--               `quote`, `find_string`); Util.PathValidator: src/util/PathValidator.cpp (`validate`)
--   Ipc         Ipc.SocketIo: `readLine` and `sendAll` of src/ipc/SocketIo.cpp; Ipc.Server:
--               src/ipc/ControlServer.cpp (`bindSocket`, `serve`; Ipc.Server.Loop: `run`) and
--               src/ipc/SocketPath.cpp; Ipc.Client: src/ipc/ControlClient.cpp
--   Decode      the interface of src/decode/IAudioDecoder.h and the vendored libraries it stands on;
--               Decode.Wav, Decode.Flac, Decode.Mp3: WavDecoder.cpp, FlacDecoder.cpp and
--               Mp3Decoder.cpp of src/decode; Decode.Factory: `create` of
--               src/decode/AudioDecoderFactory.cpp; Decode.Drive: any calls on one decoder;
--               Decode.PreWarm: `preWarmSong` of src/player/SongQueue.cpp
--   Signal      Signal.Bpm: src/decode/BpmDetector.cpp, over abstract floating-point numbers
--   Library     src/library: Library.Song, Library.Album (also Playlist.cpp), Library.Collection
--               (MusicLibrary.cpp) and Library.Scanner; Library itself: the supported extensions of
--               src/decode/AudioDecoderFactory.cpp
--   Service     Service.Library: src/service/LibraryService.cpp; Service.Async:
--               src/service/AsyncLibraryService.cpp; both are instances of the service interface of
--               Commands.Dispatcher; Service.Config: src/service/ConfigService.cpp
--   Process     Process.SelfPipe: src/util/SelfPipe.cpp; Process.Daemon: src/Daemon.cpp;
--               Process.Watcher: src/util/DirectoryWatcher.cpp; Process.Remote: `handleRemote` of
--               src/App.cpp; Process.Main: src/main.cpp
--   Tui         Tui.UserInputs and Tui.FileManager: the state of the two components of src/tui
--               that have one
--   Events      Events.Bus: src/events/NotificationBus.h (`push`, `drain`); Events.Publisher:
--               src/events/PlaybackEventPublisher.cpp
--   Audio       Audio.Sink: src/audio/SdlAudioSink.cpp (`open_device` for `open`,
--               `set_source_format`, `rebuild_converter`, `start`, `stop`, `close`, `set_volume`),
--               Audio.Sink.Fill (`fill`, the callback) and Audio.Devices (`list_output_devices`)
--   Commands    Commands.Quoting: `trim`, `tokenize`, `quoteArg`, `singleArg` of
--               src/commands/CommandDispatcher.cpp, and the request that src/ipc/ControlClient.cpp
--               builds; Commands.Result: `CommandResult` and `toJson`; Commands.Dispatcher: the
--               handlers of `CommandDispatcher`, over records of the methods of `ILibraryService`
--               and `IConfigService`, with the calls on `IUiBridge` as a list; Commands.Queue:
--               src/commands/CommandQueue.cpp
--   Player      Player.SongQueue: src/player/SongQueue.cpp; Player.Engine:
--               src/player/PlaybackEngine.cpp, in Engine (state, `pause`, `setVolume`, the audio
--               callback), Engine.Load, Engine.Play and Engine.Device;
--               Player.Controller: src/player/PlaybackController.cpp; Player.DecodeThread:
--               src/player/DecodeThread.cpp; Player.AutoAdvance:
--               src/player/AutoAdvanceManager.cpp
--
-- Conventions. A `std::string` or a path is the list of its bytes. An `int` is an integer; where
-- the code may overflow one, the model returns `none`. A `std::size_t` of the ring buffer and
-- the 64-bit products of the sink wrap around at 2 ^ 64. Objects are records, and a method takes
-- the record and returns the new one. A mutex makes each method one step. A pointer that may be
-- null is an `Option`. Threads are sequences of steps in any order: the worker of the command
-- queue, the decode loop with the audio callback, the polls of auto-advance, and the loaders of
-- albums. What system calls answer is a list of their results. The decoders and the pre-warm record
-- keep counters that the code does not have, of the files that the vendored libraries have opened
-- and closed and of the frames that were decoded.
--
-- Parameters, for what the repository only calls: SDL (which devices open, with what format, which
-- conversions it offers, what its audio stream holds, and the mixing of a volume), the file system,
-- the socket calls, dr_wav, dr_flac and minimp3 (which files open, what they tell of themselves, and
-- what a read gives, never more than was asked for), the arithmetic of float and double, the events
-- and menus of FTXUI, and the samples that the decode thread delivers while playback starts.
--
-- Bounds and fuel. Loops are recursions on the list they walk; the loops on a socket walk the
-- results of the calls, and still wait when these run out. A pass of the pre-warm loop runs on
-- the number of rounds before it is asked to stop; as many rounds as the playlist has songs
-- finish it. The validation of a song runs on its ten rounds. The threads of the control server, of
-- the daemon and of the watcher walk the turns that `poll`, `accept` and the clock give them, and
-- the loop that fills the converter of the sink walks what the provider gives. The decimal printer
-- runs on the number that it prints, which has no more digits than that.
--
-- Not modelled: drawing and the visuals, which are floating-point code on FTXUI; the spectrum
-- analyser with its Fourier transform, and the playback progress; the constructors that wire the
-- objects together (src/PlayerCore.cpp, src/App.cpp), the signal handlers and the start of SDL; the
-- options of sockets; the vendored decoders themselves. The ring buffer's two threads are taken one
-- call at a time. That the configuration file can be written is taken for granted.
pub mod Audio
pub mod Base
pub mod Util
pub mod Commands
pub mod Decode
pub mod Events
pub mod Ipc
pub mod Library
pub mod Service
pub mod Signal
pub mod Tui
pub mod Player
pub mod Process
