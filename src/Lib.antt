-- ===== src/Lib.antt =====
-- The media library of this repository: its timelines, its buffer allocator, its stream types, the
-- builder of its conversion pipelines, its reader cache, its media pipes and rate controls, the audio
-- packets, their queue and the mixers, its frame layouts, and its LPCM loops.
--
-- The parts and how they interact. A TimelineFunction maps times between two timelines by a basis and
-- a TimelineRate, a ratio of two uint32_t in lowest terms, which BinaryGcd reduces. A producer of media
-- packets allocates their payloads from a shared buffer by a FifoAllocator. A StreamType describes what
-- flows between the parts of a media graph, and a StreamTypeSet what a part accepts; both travel over
-- the wire as MediaType and MediaTypeSet. BuildConversionPipeline adds the decoder and the reformatter
-- that bring a stream type into one of the accepted sets. A SparseByteBuffer keeps the bytes of an asset
-- that were read so far, and says which are missing; a ReaderCache serves reads from it, and has the
-- missing bytes taken in. A client sends its packets through a MediaPipeBase, which checks them against
-- the shared buffer; AudioPipe makes them audio packets, on the timeline of their track, an
-- AudioTrackToOutputLink queues them, and a Mixer samples their frames into the buffer of an output. On
-- the client's side, a CircularBufferMediaPipeAdapter allocates the packets in a ring and sends them. A
-- RateControlBase moves a track's timeline by LinearTransforms.
--
-- The files and their source:
-- - Timeline/Gcd: BinaryGcd and ReduceRatio of mojo/services/media/common/cpp/timeline_rate.cc. The
--   loops run on fuel: as many rounds as the number they halve, and for the subtraction loop as many as
--   the sum of its two numbers, which each round makes smaller.
-- - Timeline/Rate: ScaleUInt64, Scale, Product and the class TimelineRate, of the same file and
--   timeline_rate.h. The loop of Product has 33 rounds, which bring 64-bit parts to 32 bits. Arithmetic
--   on uint64_t is written with its wrap-around.
-- - Timeline/Function: mojo/services/media/common/cpp/timeline_function.{h,cc}. A sum that leaves
--   int64_t, whose behaviour is undefined, is `none`.
-- - Fifo: mojo/services/media/common/cpp/fifo_allocator.{h,cc}. The doubly linked list is a list split
--   at the active region. Layout, Entries and History hold the invariant, the view of a client and the
--   step relation of its calls. The lookaside of region structures is left out.
-- - Stream: services/media/framework/types. The subclasses of StreamType are the constructors of
--   Details; an abort is `none`.
-- - MediaTypes: the structs of mojo/services/media/common/interfaces/media_types.mojom,
--   media_common.mojom and media_metadata.mojom.
-- - Conversion: services/media/framework_mojo/mojo_type_conversions.cc, and the clones of
--   services/media/framework/util/safe_clone.h. The arrays of the mojo bindings are not part of the
--   repository: Array<T>::New and the conversions of strings and of arrays of strings are parameters.
--   An accessor of a union that holds another member is `none`, as its check fails.
-- - Pipeline: services/media/framework/util/conversion_pipeline_builder.cc. The graph is the list of
--   the parts connected to the output. Decoder::Create with the output type of the decoder is a
--   parameter, as the decoders are FFmpeg's; for audio, the type of a decoder that was opened is LPCM of
--   a known sample format, by AvCodecContext::GetStreamType of services/media/framework_ffmpeg. A
--   NOTREACHED stops the program. The loop runs on fuel: one round for LPCM audio, and two for other
--   audio whose decoder gives LPCM.
-- - SparseBuffer: services/media/framework/parts/sparse_byte_buffer.{h,cc}. The two maps are lists in
--   the order of their keys, an iterator is a key, and a failed DCHECK is `none`. Spans and Laws hold the
--   invariant, History the step relation of a client's calls and the abstract buffer.
-- - Incident: the class Incident of services/media/framework/util/incident.{h,cc}. An operation gives the
--   next state and the consequences it executes, which do not call the incident.
-- - MediaPipe: services/media/common/media_pipe_base.{h,cc}, with the packets of
--   mojo/services/media/common/interfaces/media_transport.mojom. A mapped buffer is its size; the
--   queries and the mapping of shared buffers are parameters. An operation gives the next state and
--   what it does to others: callbacks, and calls of the derived class. The loop of SendPacket is a
--   recursion on the extra regions.
-- - LinearTransform: mojo/services/media/common/cpp/linear_transform.{h,cc}. Euclid's loop has the
--   smaller number as fuel, and 0, which is no divisor, for a run that is cut off. A difference of
--   two int64_t is taken as their distance.
-- - RateControl: services/media/common/rate_control_base.{h,cc}. The local time is an argument of each
--   call; the loop over the pending changes has their number as fuel.
-- - AudioPipe: services/media/audio/audio_pipe.{h,cc}, on top of MediaPipe. The track's frame size and
--   ratio are a parameter, and a region points to an offset in the buffer. An end of a packet that
--   leaves int64_t, whose behaviour is undefined, is `none`. The answer that the
--   destructor of a refused packet gives is part of MediaPipe.
-- - TrackLink: the packet queue of services/media/audio/audio_track_to_output_link.{h,cc}. Each section
--   under the locks is one step, of the server's thread or of the mixer's; a call that would wait for
--   flush_lock_ is `none`. The server's thread does not push while it flushes.
-- - Frame: the frame layouts of services/media/framework/types/video_stream_type.{h,cc}. The planes of a
--   format are a list; arithmetic on size_t is written with its wrap-around, and the conversion of
--   an Extent to int and back is written out.
-- - Lpcm: services/media/framework/util/lpcm_util.cc and the integer conversions and loops of
--   services/media/framework/parts/lpcm_reformatter.cc. A buffer is a function from the index of a
--   sample to its value, and a sample is an integer; bits are written by division and remainder.
-- - ReaderCache: services/media/framework/parts/reader_cache.{h,cc}, on top of SparseBuffer. The request's
--   buffer is the bytes copied into it; the loop of ServeRequest has a round for each byte that is
--   asked for, and one more. An operation gives the next store and the call of the client's callback.
-- - CircularBuffer: mojo/services/media/common/cpp/circular_buffer_media_pipe_adapter.{h,cc}. An operation
--   gives the next state and what it does to others; a failed check with no other answer, and undefined
--   behaviour, are `none`. Packets are those of MediaPipe. Overrun and Faults hold what goes wrong, Use
--   and History the packets of a client that keeps to the rules.
-- - Mixer: services/media/audio/platform/generic/mixer.{h,cc}, its mixers/mixer_utils.h and
--   mixers/point_sampler.cc; Mixer/Linear: mixers/linear_sampler.cc. A template's parameters are a
--   Layout; a buffer is a function from the index of a sample to its value. The loops have a round for
--   each destination frame that is left; the first loop of the linear sampler tests its condition in
--   front, where the check of Mix makes it hold.
--   A failed check and a position that leaves int32_t are `none`; a sum of samples is kept exact.
-- - Base: the names that the other modules share, tests on numbers, lists and integers over the
--   native numbers.
--
-- Not modelled: the classes that only move messages, packets and threads between the mojo system,
-- FFmpeg and ALSA (services/media/factory_service, services/media/framework_ffmpeg,
-- mojo/message_pump, mojo/application), which are input and output; the outputs, the tracks and
-- the gain in decibels of services/media/audio;
-- the graph, the stages and the engine of services/media/framework; samples of
-- floating point numbers; the developer tools in tools/ and third_party/, which are other projects'.
pub mod Base
pub mod Timeline
pub mod Fifo
pub mod Stream
pub mod MediaTypes
pub mod Conversion
pub mod Pipeline
pub mod SparseBuffer
pub mod Incident
pub mod MediaPipe
pub mod LinearTransform
pub mod RateControl
pub mod Frame
pub mod TrackLink
pub mod AudioPipe
pub mod Lpcm
pub mod ReaderCache
pub mod CircularBuffer
pub mod Mixer
