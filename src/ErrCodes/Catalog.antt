-- ===== src/ErrCodes/Catalog.antt =====
-- The error codes of include/cros_err_codes.h with their messages, in the order of the list: the
-- code of a message is its place, counted from 0.
use Prim.Native.String.{String}
use cros.Common.{List, [], ℕ, ◌∷◌}

abbrev pub no_err : ℕ
no_err = 0

-- LAST_ERR_LIST_CODE, the number of codes.
abbrev pub last_err_list_code : ℕ
last_err_list_code = 44

unfoldable pub messages : List String
messages =
    "Operation completed successfully" ∷ "An unspecified error occurred" ∷ "Error allocating memory"
    ∷ "An invalid value has been specified for at least one of the input parameters"
    ∷ "The message file definition the cannot be opened"
    ∷ "Error reading the message definition file"
    ∷ "Error loading or processing the message definition file"
    ∷ "The file defining the service cannot be opened" ∷ "Error reading the service definition file"
    ∷ "The unregistration from the ROS master was abandoned before it finished because it was taking too long"
    ∷ "An error ocurred while monitoring the socket file descriptors (select() function)"
    ∷ "The maximum number of paramter subscriptions has been reached"
    ∷ "The provided parameter subscriber index does not corresponds to a valid subscriber to be unsubscribed"
    ∷ "The provided topic publisher index does not corresponds to a valid publisher to be unregistered"
    ∷ "The provided topic subscriber index does not corresponds to a valid subscriber to be unregistered"
    ∷ "The delimiter string between resquest and response definition could not be found in the service definition file"
    ∷ "The definition file contains an entry that specifies and incorrect data type"
    ∷ "Error loading the service request definition in the file"
    ∷ "Error loading the service response definition in the file"
    ∷ "Error loading the specified custom message definition file or creating a message of its type"
    ∷ "The definition file contains an entry that is syntactically incorrect (a white space is expected between data type and data name)"
    ∷ "Error decoding a received packet: The length of the packet is too small for the expected data type"
    ∷ "Error decoding a received packet: The definition of the custom message does not corresponds to the fields of the message to send"
    ∷ "The callback function specified for a topic publisher returned a non-zero value"
    ∷ "The callback function specified for a topic subscriber returned a non-zero value"
    ∷ "The callback function specified for a service client returned a non-zero value when generating the service request"
    ∷ "The callback function specified for a service client returned a non-zero value when generating the service response"
    ∷ "The callback function specified for a service server returned a non-zero value"
    ∷ "The response received from the service server contains an 'ok' byte codifying a value different from true (1)"
    ∷ "The specified timeout was up while waiting for a topic message"
    ∷ "The specified timeout was up while waiting for space in the message transmission queue"
    ∷ "The specified timeout was up while waiting for the service call response"
    ∷ "The specified timeout was up while the service caller was waiting for the previous call to finish"
    ∷ "An error occurred when an XMLRPC client process was trying to establish the connection to the target address"
    ∷ "An XMLRPC client process could not establish the connection to the target address because the connection was refused"
    ∷ "An error arised when the XMLRPC client process tried to write the request on the socket"
    ∷ "An error arised when the XMLRPC client process tried to read the response from the socket"
    ∷ "A TCPROS client process could not establish the connection to the target address due to an error"
    ∷ "An TCPROS client process could not establish the connection to the target address because the connection was refused"
    ∷ "A RPCROS client process could not establish the connection to the target address due to an error"
    ∷ "An RPCROS client process could not establish the connection to the target address because the connection was refused"
    ∷ "The specified timeout was up while waiting for the specified port to be open"
    ∷ "An error occurred when the specified target port was tried to be connected (target address could not be resolved?)"
    ∷ "An internal error occurred when sending an inmediate message: The message could not be extracted from the queue"
    ∷ []
