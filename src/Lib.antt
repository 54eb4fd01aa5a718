-- ===== src/Lib.antt =====
-- Verification of the media player library: its data sources with their block cache, and the audio
-- and video sinks.
--
-- The player (mediaplayer_impl.cc) loads a file (file_data_source.cc) or an URL
-- (resource_data_source.cc). Reads of an URL go through a block cache (resource_multibuffer.cc),
-- which a fetcher fills from the network and which evicts by a queue of block ids (lru.h). Audio goes
-- through a source provider (audiosourceprovider_impl.cc) to shared mixers
-- (audio_renderer_mixer_manager.cc) on cached sinks (audio_renderer_sink_cache_impl.cc), and streams
-- are opened at a host (audio_renderer_host.cc, audio_message_filter.cc) whose delegates
-- (audio_output_delegate_impl.cc) stand between it and the audio controllers, are fed by a reader of
-- shared memory (audio_sync_reader.cc) and write logs (media_internals.cc). Video frames go to a sink
-- (video_renderer_sink_impl.cc). The parts are composed in these modules: MixerManager/Run runs the
-- manager on its sink cache, ResourceDataSource/Session a source on its block cache, RendererHost/Run
-- the host with its delegates and the io thread's tasks, MediaPlayer/Loading the player with its data
-- sources, and MediaPlayer/Example all of a run of example/main.cc.
--
-- Files and the code they are about:
--   Lru                 lru.h
--   MultiBuffer         resource_multibuffer.h and .cc
--   ReadOperation       read_operation.h and .cc, and the narrowing of a read's position
--   ResourceDataSource  resource_data_source.h and .cc
--   FileDataSource      file_data_source.h and .cc
--   SinkCache           audio_renderer_sink_cache_impl.h and .cc
--   MixerManager        audio_renderer_mixer_manager.h and .cc
--   VideoRendererSink   video_renderer_sink_impl.h and .cc
--   SyncReader          audio_sync_reader.h and .cc
--   MediaPlayer         mediaplayer_impl.h and .cc, mediaplayer_params.h and .cc, and example/main.cc
--   MediaContext        media_context.h and .cc
--   AudioDeviceFactory  audio_device_factory.h and .cc
--   MediaInternals      media_internals.h and .cc
--   OutputDelegate      audio_output_delegate_impl.h and .cc
--   RendererHost        audio_renderer_host.h and .cc, audio_message_filter.h and .cc
--   SourceProvider      audiosourceprovider_impl.h and .cc
--   Prelude             what the others share: tests, lists, finite maps, integers
-- Each of these has child modules with the lemmas and theorems, named for what they prove, and a
-- module of examples.
--
-- A class is a record of its fields, in the source's words without the final underscore, and a method
-- is a function from state to state; the calls that it makes on other objects, and the tasks that it
-- posts, are lists in the state. A method that can fail a DCHECK, dereference a null pointer or use a
-- dangling iterator gives an Option, `none` being that failure. A method that holds a lock is one
-- step. Integers are as in the program where it narrows them (a read's position to an int) or lets
-- them wrap (the index of an audio buffer); elsewhere they are unbounded: the int arithmetic on
-- positions within the block cache is taken not to overflow. Doubles are a type with comparisons that
-- are parameters; nothing is assumed of them that NaN breaks.
--
-- Two loops run on fuel. OnWrite's loop has one round for each byte as fuel, and it takes at least
-- one byte in each round; PurgeIfNecessary's loop has one round for each block, and it ends before
-- the rounds run out since at most 56 blocks are pinned and more than 1000 are needed to start it.
-- When the fuel runs out the result is `none`, which the theorems exclude.
--
-- Parameters stand for what the repository does not contain: the bytes that the network or a socket
-- brings, what mapping a file gives, what a sink says of its device, which device ids mean the
-- default device, the sinks and mixers that factories make, the buffer sizes of media::AudioLatency,
-- the order of the latencies, which entries the search of a std::map comes to when its comparison is
-- no strict weak order, how numbers are printed, the values of the effects, the number of audio
-- components, and what a renderer renders.
--
-- Not modelled: log lines and histograms, threads and event loops, whose tasks are run one after the
-- other, the parsing of switches and URLs, what shared memory and sockets do when they are made, and
-- the callbacks whose body is empty.
pub mod MediaContext
pub mod AudioDeviceFactory
pub mod Prelude
pub mod MediaInternals
pub mod OutputDelegate
pub mod Lru
pub mod MultiBuffer
pub mod ReadOperation
pub mod ResourceDataSource
pub mod FileDataSource
pub mod SinkCache
pub mod MixerManager
pub mod VideoRendererSink
pub mod SyncReader
pub mod MediaPlayer
pub mod RendererHost
pub mod SourceProvider
